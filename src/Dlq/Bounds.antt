-- ===== src/Dlq/Bounds.antt =====
-- The dead-letter queue stays within its bound and keeps the newest entries.
use pubsub_broker.Base.{
  append_assoc, append-nil, ℕ, zero, suc, ◌+◌, ◌-◌, ◌≤◌, ◌<◌, ◌≡◌, refl, sym, List, [], ◌∷◌, ◌++◌,
  arith, inl, inr, leb, length, drop, Bool-cases, length-append, length-drop, ◌∙◌,
}
use pubsub_broker.Dlq.Queue.{DlqEntry, DeadLetterQueue, push}

abbrev pub IsBounded : DeadLetterQueue → Type 0
IsBounded q = (0 < q.max_size) × (length q.entries ≤ q.max_size)

-- A push: what time.Now() is then, and the entry.
abbrev pub TimedEntry : Type 0
TimedEntry = ℕ × DlqEntry

-- Every entry pushed in turn, each at its own time.
unfoldable pub push_all : DeadLetterQueue → List TimedEntry → DeadLetterQueue
push_all q [] = q
push_all q ((now, e) ∷ es) = push_all (push now q e) es

-- The entries with the times of their pushes.
abbrev pub stamped : List TimedEntry → List DlqEntry
stamped [] = []
stamped ((now, e) ∷ es) = record e { arrived_at = now } ∷ stamped es

drop-drop {ℓ} : {A : Type ℓ} (m n : ℕ) (xs : List A) → drop m (drop n xs) ≡ drop (n + m) xs
drop-drop m zero xs = let e : 0 + m ≡ m = omega arith in rw e
drop-drop zero (suc n) [] = let e : suc n + 0 ≡ suc n = omega arith in rw e
drop-drop (suc m) (suc n) [] = let e : suc n + suc m ≡ suc (n + suc m) = omega arith in rw e
drop-drop m (suc n) (x ∷ xs) =
    let e : suc n + m ≡ suc (n + m) = omega arith in rw e (drop-drop m n xs)

drop-append {ℓ} :
    {A : Type ℓ} (n : ℕ) (xs ys : List A) → n ≤ length xs → drop n (xs ++ ys) ≡ drop n xs ++ ys
drop-append zero xs ys h = refl
drop-append (suc n) [] ys h = absurd (omega arith)
drop-append (suc n) (x ∷ xs) ys h = drop-append n xs ys (omega arith)

-- The last `n` elements, all of them when there are fewer.
unfoldable pub keep_last {ℓ} : {A : Type ℓ} → ℕ → List A → List A
keep_last n xs = drop (length xs - n) xs

keep_last-append {ℓ} :
    {A : Type ℓ} (n : ℕ) (xs ys : List A)
    → keep_last n (keep_last n xs ++ ys) ≡ keep_last n (xs ++ ys)
unfolding keep_last
keep_last-append n xs ys =
    let k : ℕ = length xs - n in
    let e : drop k xs ++ ys ≡ drop k (xs ++ ys) = sym (drop-append k xs ys (omega arith)) in
    let f : k + (length (drop k (xs ++ ys)) - n) ≡ length (xs ++ ys) - n =
      omega (arith, length-drop k (xs ++ ys), length-append xs ys) in
    rw (e, drop-drop (length (drop k (xs ++ ys)) - n) k (xs ++ ys), f)

length-keep_last {ℓ} : {A : Type ℓ} (n : ℕ) (xs : List A) → length (keep_last n xs) ≤ n
unfolding keep_last
length-keep_last n xs = omega (arith, length-drop (length xs - n) xs)

push-keep_last :
    (now : ℕ) (q : DeadLetterQueue) (e : DlqEntry)
    → IsBounded q
    → (push now q e).entries
      ≡ keep_last q.max_size (q.entries ++ record e { arrived_at = now } ∷ [])
unfolding push keep_last
push-keep_last now q e (above, below) =
    let n = length-append q.entries (record e { arrived_at = now } ∷ []) in
    elim (Bool-cases (leb q.max_size (length q.entries))) [
      | inl full ↦
          let k : length (q.entries ++ record e { arrived_at = now } ∷ []) - q.max_size ≡ 1 =
            ground (arith, n) in
          rw (full, k)
            (sym (drop-append 1 q.entries (record e { arrived_at = now } ∷ []) (omega arith)))
      | inr room ↦
          let k : length (q.entries ++ record e { arrived_at = now } ∷ []) - q.max_size ≡ 0 =
            ground (arith, n) in
          rw (room, k)
    ]

push-IsBounded :
    (now : ℕ) (q : DeadLetterQueue) (e : DlqEntry) → IsBounded q → IsBounded (push now q e)
unfolding push
push-IsBounded now q e h =
    let n = push-keep_last now q e h in
    (h.0, rw n (length-keep_last q.max_size (q.entries ++ record e { arrived_at = now } ∷ [])))

keep_all {ℓ} : {A : Type ℓ} (n : ℕ) (xs : List A) → length xs ≤ n → keep_last n xs ≡ xs
unfolding keep_last
keep_all n xs h = let e : length xs - n ≡ 0 = omega arith in rw e

-- After any run of pushes, each at any time, onto a queue that is within its bound, which is positive,
-- the queue holds the last `max_size` entries of the old and the pushed ones, in the order of the
-- pushes, each pushed one stamped with the clock of its push, and is within its bound again.
pub push_all-keep_last :
    (q : DeadLetterQueue) (es : List TimedEntry)
    → IsBounded q
    → ((push_all q es).entries ≡ keep_last q.max_size (q.entries ++ stamped es))
      × IsBounded (push_all q es)
unfolding push_all
push_all-keep_last q [] h = (rw (append-nil q.entries) (sym (keep_all q.max_size q.entries h.1)), h)
push_all-keep_last q ((now, e) ∷ es) h =
    let (ih, bounded) = push_all-keep_last (push now q e) es (push-IsBounded now q e h) in
    let size : (push now q e).max_size ≡ q.max_size = unfold push in refl in
    let f : keep_last q.max_size ((push now q e).entries ++ stamped es)
        ≡ keep_last q.max_size (q.entries ++ stamped ((now, e) ∷ es)) =
      rw (
        push-keep_last now q e h,
        keep_last-append q.max_size (q.entries ++ record e { arrived_at = now } ∷ []) (stamped es),
        append_assoc q.entries (record e { arrived_at = now } ∷ []) (stamped es),
      ) in
    (ih ∙ rw size f, bounded)
