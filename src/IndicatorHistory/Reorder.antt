-- ===== src/IndicatorHistory/Reorder.antt =====
-- `append_frame` and `get_history` of backend/app/services/indicator_history_service.py, for frames
-- that arrive late.
use aegis_platform_server_te.Prelude.{
  ℕ, zero, suc, ◌≡◌, refl, sym, ap, ◌∙◌, inl, inr, List, [], ◌∷◌, String, arith, take, Bool-cases,
}
use mathlib.Core.List.{map, reverse}
use aegis_platform_server_te.IndicatorHistory.{
  SortedSets, put, Arrival, taken_at, history_key, append_frame, get_history,
}

-- Two sequences of arrivals are the same up to their order.
pub data Reordered {A : Type 0} : List A → List A → Type 0 where
  same : {xs : List A} → Reordered xs xs
  swapped : (x y : A) {xs : List A} → Reordered (x ∷ y ∷ xs) (y ∷ x ∷ xs)
  under : (x : A) {xs ys : List A} → Reordered xs ys → Reordered (x ∷ xs) (x ∷ ys)
  chained : {xs ys zs : List A} → Reordered xs ys → Reordered ys zs → Reordered xs zs

take-take {ℓ} : {A : Type ℓ} (n : ℕ) (xs : List A) → take n (take n xs) ≡ take n xs
take-take zero xs = refl
take-take (suc n) [] = refl
take-take (suc n) (x ∷ xs) = ap (λ ys. x ∷ ys) (take-take n xs)

take_nil {ℓ} : {A : Type ℓ} (n : ℕ) → take {A = A} n [] ≡ []
take_nil zero = refl
take_nil (suc n) = refl

take_cons {ℓ} :
    {A : Type ℓ} (n : ℕ) (x : A) (xs : List A) → take n (x ∷ take n xs) ≡ take n (x ∷ xs)
take_cons zero x xs = refl
take_cons (suc n) x [] = refl
take_cons (suc n) x (y ∷ ys) = ap (λ zs. x ∷ zs) (take_cons n y ys)

module _ {Entry Redis : Type 0} (redis : SortedSets Entry Redis) where
  -- To trim before a new member is put in loses nothing that a trim after it keeps.
  take-put-take :
      (n : ℕ) (e : Entry) (xs : List Entry)
      → take n (put redis.is_above e (take n xs)) ≡ take n (put redis.is_above e xs)
  take-put-take zero e xs = refl
  take-put-take (suc n) e [] = refl
  take-put-take (suc n) e (x ∷ xs) = elim (Bool-cases (redis.is_above e x)) [
    | inl a ↦ rw a (ap (λ ys. e ∷ ys) (take_cons n x xs))
    | inr a ↦ elim (Bool-cases (redis.is_above x e)) [
      | inl b ↦ rw (a, b) (ap (λ ys. x ∷ ys) (take-put-take n e xs))
      | inr b ↦ rw (a, b) (ap (λ ys. x ∷ ys) (take-take n xs))
    ]
  ]

  put_comm :
      (a b : Entry) (xs : List Entry)
      → put redis.is_above a (put redis.is_above b xs)
        ≡ put redis.is_above b (put redis.is_above a xs)
  put_comm a b [] =
      ground (arith, redis.above_asym a b, redis.above_asym b a, redis.above_total a b)
  put_comm a b (x ∷ xs) = ground (
    arith,
    redis.above_asym a b,
    redis.above_asym b a,
    redis.above_total a b,
    redis.above_asym a x,
    redis.above_asym x a,
    redis.above_total a x,
    redis.above_asym b x,
    redis.above_asym x b,
    redis.above_total b x,
    redis.above_trans a b x,
    redis.above_trans b a x,
    redis.above_trans x a b,
    redis.above_trans x b a,
    redis.above_trans a x b,
    redis.above_trans b x a,
    put_comm a b xs,
  )

  -- All members, ranked.
  abbrev pub ranked : List Entry → List Entry
  ranked [] = []
  ranked (e ∷ es) = put redis.is_above e (ranked es)

  ranked-Reordered : {xs ys : List Entry} → Reordered xs ys → ranked xs ≡ ranked ys
  ranked-Reordered same = refl
  ranked-Reordered (swapped x y {xs}) = put_comm x y (ranked xs)
  ranked-Reordered (under x r) = ap (λ zs. put redis.is_above x zs) (ranked-Reordered r)
  ranked-Reordered (chained r s) = ranked-Reordered r ∙ ranked-Reordered s

module _ {Frame Entry : Type 0} (dumps : Frame → ℕ → String → Entry) where
  abbrev pub entry_of : Arrival Frame → Entry
  entry_of a = dumps a.frame (taken_at a.captured_at_ms a.now_ms) a.nonce

  abbrev pub entries : List (Arrival Frame) → List Entry
  entries [] = []
  entries (a ∷ arrivals) = entry_of a ∷ entries arrivals

module _ {Frame Entry Redis : Type 0} (redis : SortedSets Entry Redis)
    (dumps : Frame → ℕ → String → Entry) (max_frames ttl_seconds : ℕ) where
  -- Frames appended one after another; the last of the list is the first to arrive.
  unfoldable pub append_all : String → List (Arrival Frame) → Redis → Redis
  append_all account_id [] r = r
  append_all account_id (a ∷ earlier) r =
      append_frame redis dumps max_frames ttl_seconds account_id a (append_all account_id earlier r)

  members_after :
      (account_id : String) (arrivals : List (Arrival Frame)) (r : Redis)
      → redis.members (history_key account_id) r ≡ []
      → redis.members (history_key account_id) (append_all account_id arrivals r)
        ≡ take max_frames (ranked redis (entries dumps arrivals))
  unfolding append_all append_frame
  members_after account_id [] r empty = empty ∙ sym (take_nil max_frames)
  members_after account_id (a ∷ earlier) r empty =
      let k = history_key account_id in
      let before = append_all account_id earlier r in
      let added = redis.zadd k (entry_of dumps a) before in
      redis.members-expire k ttl_seconds (redis.trim k max_frames added)
      ∙ redis.members-trim k max_frames added
      ∙ rw
          (redis.members-zadd k (entry_of dumps a) before, members_after account_id earlier r empty)
          (take-put-take redis max_frames (entry_of dumps a) (ranked redis (entries dumps earlier)))

module _ {Frame Entry : Type 0} (dumps : Frame → ℕ → String → Entry) where
  entries-Reordered :
      {xs ys : List (Arrival Frame)}
      → Reordered xs ys
      → Reordered (entries dumps xs) (entries dumps ys)
  entries-Reordered same = same
  entries-Reordered (swapped x y) = swapped (entry_of dumps x) (entry_of dumps y)
  entries-Reordered (under x r) = under (entry_of dumps x) (entries-Reordered r)
  entries-Reordered (chained r s) = chained (entries-Reordered r) (entries-Reordered s)

module _ {Frame Entry Redis : Type 0} (redis : SortedSets Entry Redis)
    (dumps : Frame → ℕ → String → Entry) (loads : Entry → Frame × ℕ)
    (max_frames ttl_seconds : ℕ) where
  -- A history that starts empty holds, from the lowest rank to the highest, the highest ranked of
  -- all frames that were sent, as many as are kept, and is the same in whatever order they arrived:
  -- trimming on every arrival loses nothing that ranking all frames at the end would keep.
  pub history_of_arrivals :
      (account_id : String) (arrivals others : List (Arrival Frame)) (r : Redis)
      → redis.members (history_key account_id) r ≡ []
      → Reordered arrivals others
      → let history =
          get_history redis loads account_id
            (append_all redis dumps max_frames ttl_seconds account_id arrivals r) in
        (history ≡ map loads (reverse (take max_frames (ranked redis (entries dumps arrivals)))))
        × (history
            ≡ get_history redis loads account_id
                (append_all redis dumps max_frames ttl_seconds account_id others r))
  unfolding get_history
  history_of_arrivals account_id arrivals others r empty shuffle =
      let k = history_key account_id in
      let keep = append_all redis dumps max_frames ttl_seconds account_id in
      let here = ap (map loads) (
        redis.zrange_lem k (keep arrivals r)
        ∙ ap reverse
            (members_after redis dumps max_frames ttl_seconds account_id arrivals r empty)) in
      let there = ap (map loads) (
        redis.zrange_lem k (keep others r)
        ∙ ap reverse
            (members_after redis dumps max_frames ttl_seconds account_id others r empty)) in
      let ranks = ranked-Reordered redis (entries-Reordered dumps shuffle) in
      (here, here ∙ rw ranks refl ∙ sym there)
