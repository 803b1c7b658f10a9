-- ===== src/Jobs/Tests.antt =====
-- The theorems on the queue, on a store that is a function of its keys.
use aegis_platform_server_te.Prelude.{
  ℕ, ◌≡◌, ◌≢◌, refl, ap, inl, inr, false, Option, none, some, List, [], ◌∷◌, ◌++◌, String, str_eq,
  str_eq_refl, str_eq_eq, if◌then◌else◌, Bool-cases,
}
use aegis_platform_server_te.Jobs.{
  RedisLists, Job, Value, result_value, success, Outcome, returned, is_known, queue_key, result_key,
  push_result, await_result,
}
use aegis_platform_server_te.Jobs.Fifo.{submit_all-pop_many, submit_all, pop_many, newest_first}
use aegis_platform_server_te.Jobs.Answers.{Held, aged, answers}
use aegis_platform_server_te.Jobs.Collected.{push-await}

abbrev Item : Type 0
Item = Value String ℕ

abbrev Store : Type 0
Store = String → Held Item

differs : (k j : String) → k ≢ j → str_eq k j ≡ false
differs k j other = elim (Bool-cases (str_eq k j)) [
  | inl same ↦ absurd (other (str_eq_eq k j same))
  | inr apart ↦ apart
]

-- A key whose list is empty has no time to live.
abbrev life_of : List Item → Option ℕ → Option ℕ
life_of [] life = none
life_of (v ∷ vs) life = life

abbrev with_held : String → Held Item → Store → Store
with_held k h r j = if str_eq k j then h else r j

abbrev with_list : String → List Item → Store → Store
with_list k vs r = with_held k (vs, life_of vs (r k).1) r

abbrev expiring : List Item → ℕ → Option ℕ → Option ℕ
expiring [] seconds life = life
expiring (v ∷ vs) seconds life = some seconds

abbrev last_of : Item → List Item → Item
last_of v [] = v
last_of v (w ∷ ws) = last_of w ws

abbrev all_but_last : Item → List Item → List Item
all_but_last v [] = []
all_but_last v (w ∷ ws) = v ∷ all_but_last w ws

abbrev right_end : String → Store → List Item → Option Item × Store
right_end k r [] = (none, r)
right_end k r (v ∷ vs) = (some (last_of v vs), with_list k (all_but_last v vs) r)

abbrev left_end : String → Store → List Item → Option Item × Store
left_end k r [] = (none, r)
left_end k r (v ∷ vs) = (some v, with_list k vs r)

last_added :
    (v w : Item) (vs : List Item)
    → (last_of w (vs ++ v ∷ []) ≡ v) × (all_but_last w (vs ++ v ∷ []) ≡ w ∷ vs)
last_added v w [] = (refl, refl)
last_added v w (x ∷ xs) = let (e, f) = last_added v x xs in (e, rw f refl)

right_end_last :
    (k : String) (vs : List Item) (v : Item) (r : Store)
    → ((right_end k r (vs ++ v ∷ [])).0 ≡ some v) × ((right_end k r (vs ++ v ∷ [])).1 k).0 ≡ vs
right_end_last k [] v r = (refl, rw (str_eq_refl k) refl)
right_end_last k (w ∷ ws) v r =
    let (e, f) = last_added v w ws in (rw e refl, rw (str_eq_refl k, f) refl)

right_end_other : (k j : String) (r : Store) (vs : List Item) → k ≢ j → (right_end k r vs).1 j ≡ r j
right_end_other k j r [] other = refl
right_end_other k j r (v ∷ vs) other = rw (differs k j other) refl

right_end-none :
    (k : String) (r : Store) (vs : List Item) → (r k).1 ≡ none → ((right_end k r vs).1 k).1 ≡ none
right_end-none k r [] e = e
right_end-none k r (v ∷ vs) e = rw (str_eq_refl k, e) (life_of_none (all_but_last v vs))
  where
    life_of_none : (ws : List Item) → life_of ws none ≡ none
    life_of_none [] = refl
    life_of_none (w ∷ ws) = refl

abbrev stores : RedisLists Item Store
stores = record {
  items = λ k r. (r k).0;
  ttl = λ k r. (r k).1;
  lpush = λ k v r. with_held k (v ∷ (r k).0, (r k).1) r;
  rpop = λ k r. right_end k r (r k).0;
  lpop = λ k r. left_end k r (r k).0;
  expire = λ k seconds r. with_held k ((r k).0, expiring (r k).0 seconds (r k).1) r;
  elapse = λ n r k. aged n (r k);
  items-lpush = λ k v r. rw (str_eq_refl k) refl;
  items-lpush_other = λ k j v r other. rw (differs k j other) refl;
  rpop_empty = λ k r e. rw e refl;
  rpop_last = λ k vs v r e. rw e (right_end_last k vs v r);
  items-rpop_other = λ k j r other. ap (λ h. h.0) (right_end_other k j r (r k).0 other);
  lpop_first = λ k v vs r e. rw (e, str_eq_refl k) (refl, refl);
  lpop_empty = λ k r e. rw e refl;
  ttl-lpush = λ k j v r. unchanged k j (v ∷ (r k).0) r;
  ttl-rpop_other = λ k j r other. ap (λ h. h.1) (right_end_other k j r (r k).0 other);
  ttl-rpop_none = λ k r e. right_end-none k r (r k).0 e;
  items-expire = λ k j seconds r h. same_list k j (expiring (r k).0 seconds (r k).1) r;
  ttl-expire = λ k seconds v vs r h e. rw (str_eq_refl k, e) refl;
  ttl-expire_other = λ k j seconds r other. rw (differs k j other) refl;
  items-elapse = λ k n r. refl;
  ttl-elapse = λ k n r. refl;
}
  where
    unchanged :
        (k j : String) (vs : List Item) (r : Store) → (with_held k (vs, (r k).1) r j).1 ≡ (r j).1
    unchanged k j vs r = elim (Bool-cases (str_eq k j)) [
      | inl e ↦ rw (e, str_eq_eq k j e) refl
      | inr e ↦ rw (e) refl
    ]

    same_list :
        (k j : String) (life : Option ℕ) (r : Store) → (with_held k ((r k).0, life) r j).0 ≡ (r j).0
    same_list k j life r = elim (Bool-cases (str_eq k j)) [
      | inl e ↦ rw (e, str_eq_eq k j e) refl
      | inr e ↦ rw (e) refl
    ]

abbrev empty : Store
empty key = ([], none)

abbrev job : String → String → Job String
job job_id job_type = record { job_id = job_id; job_type = job_type; payload = "" }

abbrev three_jobs : List (Job String)
three_jobs = job "j1" "health" ∷ job "j2" "get_account" ∷ job "j3" "STOP" ∷ []

submit_all-pop_many_example :
    pop_many stores 3 "A1" 900 (submit_all stores "A1" three_jobs empty)
    ≡ some (job "j1" "health") ∷ some (job "j2" "get_account") ∷ some (job "j3" "STOP") ∷ []
submit_all-pop_many_example = submit_all-pop_many stores "A1" 900 three_jobs empty refl

abbrev perform : Job String → Outcome ℕ
perform j = returned 1

-- Every job takes 25 seconds.
abbrev took : Job String → ℕ
took j = 25

abbrev queued : Store
queued = with_held (queue_key "A1") (newest_first stores three_jobs, none) empty

-- The first result has half a minute left when the STOP is reached.
first_answer :
    answers stores perform took (result_key "j1") 900 three_jobs ([], none)
    ≡ (result_value (success 1) ∷ [], some 35)
unfolding str_eq is_known
first_answer = refl

-- Without a STOP the loop has waited for a quarter of an hour, and no result is left.
nothing_left :
    answers stores perform took (result_key "j1") 900 (job "j1" "health" ∷ []) ([], none)
    ≡ ([], none)
unfolding str_eq is_known
nothing_left = refl

push-await_example :
    (await_result stores "j1" 30 ((stores.elapse) 59 (push_result stores "j1" (success 1) empty))).0
    ≡ some (success 1)
push-await_example = push-await stores "j1" (success 1) 59 30 empty refl
