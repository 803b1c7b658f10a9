-- ===== src/Devices/Bindings.antt =====
-- The device limit of backend/app/services/device_binding_service.py.
use aegis_platform_server_te.Prelude.{
  ℕ, zero, suc, ◌+◌, ◌≡◌, ◌≤◌, ◌<◌, refl, inl, inr, ◌⊎◌, true, false, Option, none, some, List, [],
  ◌∷◌, String, arith, str_eq, str_eq_eq, str_eq_refl, str_eq_comm, find-add_row, strip, is_empty,
  leb, Bool-cases, Option-cases, if◌then◌else◌, find, update, add_row, delete_where, count_where,
  count-update, count-add_row, count-delete,
}
use aegis_platform_server_te.Models.{DeviceBinding, Subscription}
use aegis_platform_server_te.Plans.{resolve_plan_devices_pos}
use aegis_platform_server_te.Subscriptions.{get_row}
use aegis_platform_server_te.Devices.{
  max_devices, row_max_devices, of_account, is_device, bound_count, seen, binding, known, bound,
  register_at, register, clear,
}

-- What a registration at a limit does to the number of devices of an account.
register_at-count :
    (max_dev : ℕ) (account_id device_id j : String) (label : Option String) (now : ℕ)
    (rows : List DeviceBinding)
    → let (answer, after) = register_at max_dev account_id device_id label now rows in
      (bound_count j after ≡ bound_count j rows)
      ⊎ ((bound_count account_id rows < max_dev)
          × (bound_count j after ≡ bound_count j rows + (if str_eq account_id j then 1 else 0)))
unfolding register_at
register_at-count max_dev account_id device_id j label now rows =
    elim (Option-cases (find (is_device account_id device_id) rows)) [
      | inr (r, e) ↦
          rw (e, register_at)
            (inl (
              count-update (of_account j) (is_device account_id device_id) (seen label now)
                (λ x. refl) rows))
      | inl e ↦
          rw (e, register_at)
            (elim (Bool-cases (leb max_dev (bound_count account_id rows))) [
              | inl full ↦ rw full (inl refl)
              | inr room ↦ rw room (
                  inr (
                    ground arith,
                    count-add_row (of_account j) (binding account_id device_id label now) rows,
                  ))
            ])
    ]

-- One registration, for any account, takes no account over the limit of its subscription.
register-within :
    (subscriptions : List Subscription) (account_id device_id j : String) (label : Option String)
    (now : ℕ) (rows : List DeviceBinding)
    → bound_count j rows ≤ max_devices j subscriptions
    → bound_count j (register subscriptions account_id device_id label now rows).1
      ≤ max_devices j subscriptions
unfolding register
register-within subscriptions account_id device_id j label now rows h =
    elim (Bool-cases (is_empty (strip device_id))) [
      | inl empty ↦ rw (empty, register) h
      | inr named ↦
          rw (named, register)
            (elim (register_at-count (max_devices account_id subscriptions) account_id
              (strip device_id) j label now rows) [
                | inl same ↦ rw same h
                | inr (room, one) ↦ elim (Bool-cases (str_eq account_id j)) [
                  | inl it ↦
                      let here = str_eq_eq account_id j it in
                      rw (one, it) (omega (arith, rw here at room))
                  | inr other ↦ rw (one, other) (omega arith)
                ]
              ])
    ]

-- A request to register: the account, the device, its label and the time.
abbrev pub Request : Type 0
Request = String × String × Option String × ℕ

unfoldable pub register_all :
    List Subscription → List Request → List DeviceBinding → List DeviceBinding
register_all subscriptions [] rows = rows
register_all subscriptions ((account_id, device_id, label, now) ∷ rest) rows =
    register_all subscriptions rest (register subscriptions account_id device_id label now rows).1

-- However many registrations arrive, one after the other, for whatever accounts, an account that is
-- within its limit stays within it.
pub register_all-within :
    (subscriptions : List Subscription) (requests : List Request) (j : String)
    (rows : List DeviceBinding)
    → bound_count j rows ≤ max_devices j subscriptions
    → bound_count j (register_all subscriptions requests rows) ≤ max_devices j subscriptions
unfolding register_all
register_all-within subscriptions [] j rows h = h
register_all-within subscriptions ((account_id, device_id, label, now) ∷ rest) j rows h =
    register_all-within subscriptions rest j
      (register subscriptions account_id device_id label now rows).1
      (register-within subscriptions account_id device_id j label now rows h)

register_bound :
    (subscriptions : List Subscription) (account_id device_id : String) (label : Option String)
    (now m n : ℕ) (rows : List DeviceBinding)
    → (register subscriptions account_id device_id label now rows).0 ≡ bound m n
    → (is_empty (strip device_id) ≡ false)
      × (find (is_device account_id (strip device_id)) rows ≡ none)
      × ((register subscriptions account_id device_id label now rows).1
          ≡ add_row (binding account_id (strip device_id) label now) rows)
unfolding register
register_bound subscriptions account_id device_id label now m n rows h = ground arith

register_known :
    (subscriptions : List Subscription) (account_id device_id : String) (label : Option String)
    (now : ℕ) (rows : List DeviceBinding) (r : DeviceBinding)
    → is_empty (strip device_id) ≡ false
    → find (is_device account_id (strip device_id)) rows ≡ some r
    → register subscriptions account_id device_id label now rows ≡ (
      known (max_devices account_id subscriptions),
      update (is_device account_id (strip device_id)) (seen label now) rows,
    )
unfolding register
register_known subscriptions account_id device_id label now rows r named e =
    rw (named, e, register_at)

is_device_self :
    (account_id device_id : String) (label : Option String) (now : ℕ)
    → is_device account_id device_id (binding account_id device_id label now) ≡ true
is_device_self account_id device_id label now = rw (str_eq_refl account_id, str_eq_refl device_id)

-- A device that is bound is known ever after, whatever the limit is then: it registers again with no
-- change of the number of devices.
pub register_again :
    (subscriptions later_subscriptions : List Subscription) (account_id device_id : String)
    (label label' : Option String) (now later m n : ℕ) (rows : List DeviceBinding)
    → (register subscriptions account_id device_id label now rows).0 ≡ bound m n
    → let after = (register subscriptions account_id device_id label now rows).1 in
      let again = register later_subscriptions account_id device_id label' later after in
      (again.0 ≡ known (max_devices account_id later_subscriptions))
      × (bound_count account_id again.1 ≡ bound_count account_id after)
register_again subscriptions later_subscriptions account_id device_id label label' now later m n
      rows h =
    let (named, new, table) =
      register_bound subscriptions account_id device_id label now m n rows h in
    let row = binding account_id (strip device_id) label now in
    let found : find (is_device account_id (strip device_id)) (add_row row rows) ≡ some row = rw (
      find-add_row (is_device account_id (strip device_id)) row rows new,
      is_device_self account_id (strip device_id) label now,
    ) in
    rw
      (
        table,
        register_known later_subscriptions account_id device_id label' later (add_row row rows) row
            named found,
      )
      (
        refl,
        count-update (of_account account_id) (is_device account_id (strip device_id))
            (seen label' later) (λ x. refl) (add_row row rows),
      )

row_max_devices_pos : (n : ℕ) (plan : String) → 1 ≤ row_max_devices n plan
row_max_devices_pos zero plan = resolve_plan_devices_pos plan
row_max_devices_pos (suc n) plan = omega arith

max_devices_pos :
    (account_id : String) (subscriptions : List Subscription)
    → 1 ≤ max_devices account_id subscriptions
unfolding max_devices
max_devices_pos account_id subscriptions = elim (Option-cases (get_row account_id subscriptions)) [
  | inl e ↦ rw (e, max_devices) (omega arith)
  | inr (row, e) ↦ rw (e, max_devices) (row_max_devices_pos row.max_devices row.plan)
]

of_account_apart :
    (account_id j : String) (x : DeviceBinding)
    → str_eq j account_id ≡ false
    → of_account account_id x ≡ true
    → of_account j x ≡ false
of_account_apart account_id j x apart h =
    rw (str_eq_eq x.account_id account_id h, str_eq_comm account_id j) apart

count-clear_other :
    (account_id j : String) (rows : List DeviceBinding)
    → str_eq j account_id ≡ false
    → bound_count j (delete_where (of_account account_id) rows) ≡ bound_count j rows
unfolding count_where delete_where
count-clear_other account_id j [] apart = refl
count-clear_other account_id j (x ∷ rows) apart =
    ground (arith, of_account_apart account_id j x apart, count-clear_other account_id j rows apart)

count-clear :
    (account_id j : String) (rows : List DeviceBinding)
    → bound_count j (delete_where (of_account account_id) rows)
      ≡ (if str_eq j account_id then 0 else bound_count j rows)
count-clear account_id j rows = elim (Bool-cases (str_eq j account_id)) [
  | inl same ↦ rw (same, str_eq_eq j account_id same) (count-delete (of_account account_id) rows)
  | inr apart ↦ rw apart (count-clear_other account_id j rows apart)
]

none_of_account :
    (account_id device_id : String) (rows : List DeviceBinding)
    → bound_count account_id rows ≡ 0
    → find (is_device account_id device_id) rows ≡ none
unfolding count_where find
none_of_account account_id device_id [] h = refl
none_of_account account_id device_id (x ∷ rows) h =
    ground (arith, none_of_account account_id device_id rows)

-- After an operator clears an account's bindings the account has none and every other account has
-- as many as before; and the next device that registers for it is bound, since every limit is at
-- least one.
pub clear-register :
    (subscriptions : List Subscription) (account_id device_id j : String) (label : Option String)
    (now : ℕ) (rows : List DeviceBinding)
    → is_empty (strip device_id) ≡ false
    → let after = (clear account_id rows).1 in
      (bound_count j after ≡ (if str_eq j account_id then 0 else bound_count j rows))
      × ((register subscriptions account_id device_id label now after).0
          ≡ bound (max_devices account_id subscriptions) 1)
unfolding clear register
clear-register subscriptions account_id device_id j label now rows named =
    let zero_left : bound_count account_id (delete_where (of_account account_id) rows) ≡ 0 =
      count-delete (of_account account_id) rows in
    (
      count-clear account_id j rows,
      rw
          (
            clear,
            named,
            none_of_account account_id (strip device_id) _ zero_left,
            zero_left,
            register_at,
          )
          (ground (arith, max_devices_pos account_id subscriptions)),
    )
