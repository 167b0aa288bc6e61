-- ===== src/Metrics/History.antt =====
-- StateHistory and its deques.
use fcpp_bridge.Prelude.{
  ℕ, zero, suc, ◌+◌, ◌-◌, ◌≤◌, ◌≡◌, refl, ap, sym, ◌∙◌, true, Option, none, some, List, [], ◌∷◌,
  ◌++◌, append-nil, append_assoc, length, length-append, arith, ltb,
}
use fcpp_bridge.Ipc.Exec.{ok}
use fcpp_bridge.Ipc.Wire.{SwarmSnapshot}
use fcpp_bridge.Metrics.{
  drop, keep_last, append_to, StateHistory, new_history, add_snapshot, from_end, nth, get_round,
}

module _ {ℓ} {A : Type ℓ} where
  pub length-drop : (n : ℕ) (xs : List A) → length (drop n xs) ≡ length xs - n
  unfolding drop
  length-drop zero xs = omega arith
  length-drop (suc n) [] = omega arith
  length-drop (suc n) (x ∷ xs) = omega (arith, length-drop n xs)

  drop-append : (n : ℕ) (xs ys : List A) → n ≤ length xs → drop n (xs ++ ys) ≡ drop n xs ++ ys
  unfolding drop
  drop-append zero xs ys h = refl
  drop-append (suc n) [] ys h = absurd (omega arith)
  drop-append (suc n) (x ∷ xs) ys h = drop-append n xs ys (omega arith)

  drop-nil : (n : ℕ) → drop {A = A} n [] ≡ []
  unfolding drop
  drop-nil zero = refl
  drop-nil (suc n) = refl

  drop_more : (x : A) (n : ℕ) (xs : List A) → drop (suc n) (x ∷ xs) ≡ drop n xs
  unfolding drop
  drop_more x n xs = refl

  drop-drop : (m n : ℕ) (xs : List A) → drop m (drop n xs) ≡ drop (n + m) xs
  unfolding drop
  drop-drop m zero xs = ap (λ k. drop k xs) (omega arith)
  drop-drop m (suc n) [] = drop-nil m ∙ sym (drop-nil (suc n + m))
  drop-drop m (suc n) (x ∷ xs) =
      drop-drop m n xs
      ∙ sym (drop_more x (n + m) xs)
      ∙ ap (λ k. drop k (x ∷ xs)) {x = suc (n + m)} (omega arith)

  append_to-keep_last :
      (max : Option ℕ) (x : A) (xs : List A)
      → append_to max x (keep_last max xs) ≡ keep_last max (xs ++ x ∷ [])
  unfolding append_to
  append_to-keep_last none x xs = refl
  append_to-keep_last (some n) x xs =
      let k = length xs - n in
      let cut : drop k (xs ++ x ∷ []) ≡ drop k xs ++ x ∷ [] =
        drop-append k xs (x ∷ []) (omega arith) in
      let count : k + (length (drop k xs ++ x ∷ []) - n) ≡ length (xs ++ x ∷ []) - n =
        omega (
          arith,
          length-append (drop k xs) (x ∷ []),
          length-append xs (x ∷ []),
          length-drop k xs,
        ) in
      ap (drop (length (drop k xs ++ x ∷ []) - n)) (sym cut)
      ∙ drop-drop (length (drop k xs ++ x ∷ []) - n) k (xs ++ x ∷ [])
      ∙ ap (λ i. drop i (xs ++ x ∷ [])) count

  -- deque.append for one element after the other
  unfoldable pub fill : Option ℕ → List A → List A → List A
  fill max [] old = old
  fill max (x ∷ xs) old = fill max xs (append_to max x old)

  fill-keep_last :
      (max : Option ℕ) (xs old : List A)
      → fill max xs (keep_last max old) ≡ keep_last max (old ++ xs)
  unfolding fill
  fill-keep_last max [] old = ap (keep_last max) (sym (append-nil old))
  fill-keep_last max (x ∷ xs) old =
      ap (fill max xs) (append_to-keep_last max x old)
      ∙ fill-keep_last max xs (old ++ x ∷ [])
      ∙ ap (keep_last max) (append_assoc old (x ∷ []) xs)

  keep_last-nil : (max : Option ℕ) → keep_last {A = A} max [] ≡ []
  keep_last-nil none = refl
  keep_last-nil (some n) = drop-nil (0 - n)

  length-append_to : (n : ℕ) (x : A) (xs : List A) → length (append_to (some n) x xs) ≤ n
  unfolding append_to
  length-append_to n x xs = omega (arith, length-drop (length (xs ++ x ∷ []) - n) (xs ++ x ∷ []))

  nth-append : (x : A) (xs : List A) → nth (length xs) (xs ++ x ∷ []) ≡ ok x
  unfolding nth
  nth-append x [] = refl
  nth-append x (y ∷ xs) = nth-append x xs

-- `add` for one snapshot after the other, each with the time it came at
unfoldable pub add_in_turn : List (ℕ × SwarmSnapshot) → StateHistory → StateHistory
add_in_turn [] h = h
add_in_turn ((now, s) ∷ rest) h = add_in_turn rest (add_snapshot now s h)

abbrev pub times_of : List (ℕ × SwarmSnapshot) → List ℕ
times_of [] = []
times_of ((now, s) ∷ rest) = now ∷ times_of rest

abbrev pub snapshots_of : List (ℕ × SwarmSnapshot) → List SwarmSnapshot
snapshots_of [] = []
snapshots_of ((now, s) ∷ rest) = s ∷ snapshots_of rest

add_in_turn-fill :
    (items : List (ℕ × SwarmSnapshot)) (h : StateHistory)
    → ((add_in_turn items h).snapshots ≡ fill h.max_size (snapshots_of items) h.snapshots)
      × ((add_in_turn items h).wall_clocks ≡ fill h.max_size (times_of items) h.wall_clocks)
unfolding add_in_turn add_snapshot fill
add_in_turn-fill [] h = (refl, refl)
add_in_turn-fill ((now, s) ∷ items) h = add_in_turn-fill items (add_snapshot now s h)

-- A history of bounded size is a window on the past: after any number of calls of `add` it holds
-- the last `max_size` snapshots and the times at which they came, in order; without a bound, all.
pub add_in_turn_window :
    (max : Option ℕ) (items : List (ℕ × SwarmSnapshot))
    → let h = add_in_turn items (new_history max) in
      (h.snapshots ≡ keep_last max (snapshots_of items))
      × (h.wall_clocks ≡ keep_last max (times_of items))
unfolding new_history
add_in_turn_window max items =
    let (p, q) = add_in_turn-fill items (new_history max) in
    (
      p ∙ ap (fill max (snapshots_of items)) (sym (keep_last-nil max)) ∙ fill-keep_last max _ [],
      q ∙ ap (fill max (times_of items)) (sym (keep_last-nil max)) ∙ fill-keep_last max _ [],
    )

append_to-ends :
    {A : Type 0} (n : ℕ) (x : A) (xs : List A)
    → append_to (some (suc n)) x xs ≡ drop (length xs - n) xs ++ x ∷ []
unfolding append_to
append_to-ends n x xs =
    ap (λ k. drop k (xs ++ x ∷ [])) (omega (arith, length-append xs (x ∷ [])))
    ∙ drop-append (length xs - n) xs (x ∷ []) (omega arith)

-- In a history with room for a snapshot, index -1 is the one that was added last.
pub get_round-add_snapshot :
    (now n : ℕ) (s : SwarmSnapshot) (h : StateHistory)
    → h.max_size ≡ some (suc n)
    → get_round (from_end 0) (add_snapshot now s h) ≡ ok s
unfolding get_round add_snapshot
get_round-add_snapshot now n s h e =
    let ys = drop (length h.snapshots - n) h.snapshots in
    let ends : append_to h.max_size s h.snapshots ≡ ys ++ s ∷ [] =
      ap (λ m. append_to m s h.snapshots) e ∙ append_to-ends n s h.snapshots in
    let last : length (ys ++ s ∷ []) - 1 ≡ length ys = omega (arith, length-append ys (s ∷ [])) in
    let room : ltb 0 (length (ys ++ s ∷ [])) ≡ true = ground (arith, length-append ys (s ∷ [])) in
    rw (ends, room, last) (nth-append s ys)
