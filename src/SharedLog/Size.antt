-- ===== src/SharedLog/Size.antt =====
-- agents/shared_log.py: the size of the log, and what a write leaves readable.
use hollow_agent_os.Base.{
  ℕ, zero, suc, ◌-◌, ◌*◌, ◌≤◌, ◌<◌, ◌≡◌, refl, ap, ◌∙◌, String, none, List, [], ◌∷◌, ◌++◌, arith,
  ltb, if_ind, inl, inr, Bool-cases, length, length-append,
}
use hollow_agent_os.SharedLog.{
  SharedLog, LogEntry, Line, entry, broken, drop, last, lines_of, maybe_trim, write, selected, read,
}

module _ {ℓ} {A : Type ℓ} where
  length-drop : (n : ℕ) (xs : List A) → length (drop n xs) ≡ length xs - n
  length-drop zero xs = omega arith
  length-drop (suc n) [] = omega arith
  length-drop (suc n) (x ∷ xs) = omega (arith, length-drop n xs)

  -- Dropping less than there is keeps the last element.
  drop-append :
      (n : ℕ) (xs : List A) (x : A) → n ≤ length xs → drop n (xs ++ x ∷ []) ≡ drop n xs ++ x ∷ []
  drop-append zero xs x h = refl
  drop-append (suc n) [] x h = absurd (omega arith)
  drop-append (suc n) (y ∷ xs) x h = drop-append n xs x (omega arith)

  length-last-le : (n : ℕ) (xs : List A) → 0 < n → length (last n xs) ≤ n
  unfolding last
  length-last-le zero xs h = absurd (omega arith)
  length-last-le (suc n) xs h = omega (arith, length-drop (length xs - suc n) xs)

  last-append :
      (n : ℕ) (xs : List A) (x : A) → (ys : List A) × (last (suc n) (xs ++ x ∷ []) ≡ ys ++ x ∷ [])
  unfolding last
  last-append n xs x = (
    drop (length (xs ++ x ∷ []) - suc n) xs,
    drop-append (length (xs ++ x ∷ []) - suc n) xs x (omega (arith, length-append xs (x ∷ []))),
  )

maybe_trim-le : (m : ℕ) (ls : List Line) → 0 < m → length (maybe_trim m ls) * 10 ≤ m * 11
unfolding maybe_trim
maybe_trim-le m ls h = elim (Bool-cases (ltb (m * 11) (length ls * 10))) [
  | inl b ↦ rw (b, maybe_trim) (omega (arith, length-last-le m ls h))
  | inr b ↦ rw (b, maybe_trim) (ground arith)
]

-- The line that was just written survives the trimming.
maybe_trim-append :
    (m : ℕ) (ls : List Line) (x : Line)
    → (ys : List Line) × (maybe_trim m (ls ++ x ∷ []) ≡ ys ++ x ∷ [])
unfolding maybe_trim last
maybe_trim-append zero ls x =
    if_ind (λ r. (ys : List Line) × (r ≡ ys ++ x ∷ [])) (ltb 0 (length (ls ++ x ∷ []) * 10)) _ _
      (λ b. (ls, refl)) (λ b. (ls, refl))
maybe_trim-append (suc m) ls x =
    if_ind (λ r. (ys : List Line) × (r ≡ ys ++ x ∷ [])) _ _ _ (λ b. last-append m ls x)
      (λ b. (ls, refl))

selected-append :
    (e : LogEntry) (ls : List Line)
    → selected none none none (ls ++ entry e ∷ []) ≡ selected none none none ls ++ e ∷ []
unfolding selected
selected-append e [] = refl
selected-append e (entry f ∷ ls) = ap (λ r. f ∷ r) (selected-append e ls)
selected-append e (broken s ∷ ls) = selected-append e ls

last-newest :
    (limit : ℕ) (zs : List LogEntry) (e : LogEntry)
    → (es : List LogEntry) × (last limit (zs ++ e ∷ []) ≡ es ++ e ∷ [])
unfolding last
last-newest zero zs e = (zs, refl)
last-newest (suc n) zs e = last-append n zs e

-- The entries of a file that ends with an entry.
read_newest :
    (limit : ℕ) (e : LogEntry) (ls : List Line)
    → (ys : List Line) × (ls ≡ ys ++ entry e ∷ [])
    → (es : List LogEntry) × (last limit (selected none none none ls) ≡ es ++ e ∷ [])
read_newest limit e ls (ys, f) =
    let (es, g) = last-newest limit (selected none none none ys) e in
    (
      es,
      ap (λ r. last limit (selected none none none r)) f
          ∙ ap (last limit) (selected-append e ys)
          ∙ g,
    )

-- After a write the log is at most a tenth above its limit, however large it was, where the limit is
-- not 0; and the newest entry that read gives, with any limit and no filter, is the written one.
pub write-Bounded :
    (cut : String → String) (l : SharedLog) (i m : String) (tags : List String) (now limit : ℕ)
    → 0 < l.max_entries
    → let l' = write cut l i m tags now in
      (length (lines_of l'.file) * 10 ≤ l.max_entries * 11)
      × (es : List LogEntry) × (read l' limit none none none
          ≡ es ++ record { ts = now; agent_id = i; message = cut m; tags = tags } ∷ [])
unfolding write read
write-Bounded cut l i m tags now limit h =
    let e : LogEntry = record { ts = now; agent_id = i; message = cut m; tags = tags } in
    let (es, newest) =
      read_newest limit e _ (maybe_trim-append l.max_entries (lines_of l.file) (entry e)) in
    (maybe_trim-le l.max_entries _ h, es, newest)
