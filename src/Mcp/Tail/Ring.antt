-- ===== src/Mcp/Tail/Ring.antt =====
-- The ring refines a sequence: `tail` is the last `stderr_buf_size` bytes of all that was written.
use mathlib.Core.List.{append_assoc, append-nil}
use orbitproxy_go.Prelude.{
  ℕ, zero, suc, ◌+◌, ◌-◌, ◌≤◌, ◌<◌, ◌≡◌, refl, sym, ap, subst, ◌∙◌, if◌then◌else◌, List, [], ◌∷◌,
  ◌++◌, arith, length, take, drop, replicate, last_n, length-append, length-take, length-drop,
  length-replicate, take-append-drop, take_append, drop_append,
}
use orbitproxy_go.Mcp.Tail.{StderrBuffer, stderr_buf_size, copy_at, write_last, tail}

pub stderr_buf_size_pos : 0 < stderr_buf_size
unfolding stderr_buf_size
stderr_buf_size_pos = omega arith

copy_at-nil : (c : List ℕ) → copy_at 0 c [] ≡ c
unfolding copy_at
copy_at-nil [] = refl
copy_at-nil (x ∷ c) = refl

copy_at_exact :
    (a b c p : List ℕ) → length b ≡ length p → copy_at (length a) (a ++ (b ++ c)) p ≡ a ++ (p ++ c)
unfolding copy_at
copy_at_exact [] [] c [] h = copy_at-nil c
copy_at_exact [] [] c (y ∷ p) h = absurd (omega arith)
copy_at_exact [] (x ∷ b) c [] h = absurd (omega arith)
copy_at_exact [] (x ∷ b) c (y ∷ p) h = ap (◌∷◌ y) (copy_at_exact [] b c p (omega arith))
copy_at_exact (x ∷ a) b c p h = ap (◌∷◌ x) (copy_at_exact a b c p h)

-- The bytes that the ring holds, oldest first.
abbrev pub content : StderrBuffer → List ℕ
content sb = if sb.is_full then drop sb.pos sb.buf ++ take sb.pos sb.buf else take sb.pos sb.buf

pub record IsRing (sb : StderrBuffer) : Type 0 where
  pub sized : length sb.buf ≡ stderr_buf_size
  pub inside : sb.pos < stderr_buf_size

abbrev zeros : ℕ → List ℕ
zeros n = replicate n 0

replicate-add : (a b : ℕ) → zeros (a + b) ≡ zeros a ++ zeros b
replicate-add zero b = ap zeros (omega arith)
replicate-add (suc a) b =
    let e : suc a + b ≡ suc (a + b) = omega arith in rw e (ap (◌∷◌ 0) (replicate-add a b))

-- Copying over a slice of zeros, in two parts.
copy_at_two :
    (n : ℕ) (xs ys : List ℕ)
    → length xs + length ys ≡ n
    → copy_at (length xs) (copy_at 0 (zeros n) xs) ys ≡ xs ++ ys
copy_at_two n xs ys h =
    let room = zeros (length ys) in
    let first : copy_at 0 (zeros n) xs ≡ xs ++ room =
      rw (← h, replicate-add)
        (copy_at_exact [] (zeros (length xs)) room xs (length-replicate (length xs) 0)) in
    let second : copy_at (length xs) (xs ++ (room ++ [])) ys ≡ xs ++ (ys ++ []) =
      copy_at_exact xs room [] ys (length-replicate (length ys) 0) in
    cc (first, second, append-nil room, append-nil ys)

copy_at_full : (xs : List ℕ) → copy_at 0 (zeros (length xs)) xs ≡ xs
copy_at_full xs =
    let whole = copy_at_exact [] (zeros (length xs)) [] xs (length-replicate (length xs) 0) in
    cc (whole, append-nil xs, append-nil (zeros (length xs)))

pub tail-content : (sb : StderrBuffer) → IsRing sb → tail sb ≡ content sb
unfolding tail
tail-content sb r =
    let old = drop sb.pos sb.buf in
    let new = take sb.pos sb.buf in
    let len_old : length old ≡ stderr_buf_size - sb.pos =
      omega (arith, length-drop sb.pos sb.buf, r.sized) in
    let len_new : length new ≡ sb.pos =
      omega (arith, length-take sb.pos sb.buf, r.sized, r.inside) in
    let both = copy_at_two stderr_buf_size old new (omega (arith, len_old, len_new, r.inside)) in
    let one = copy_at_two (length new) new [] (omega arith) in
    ground (
      arith,
      ap (λ k. copy_at k (copy_at 0 (zeros stderr_buf_size) old) new) len_old,
      both,
      one,
      ap (λ k. copy_at 0 (zeros k) new) len_new,
      append-nil new,
      copy_at_full new,
    )

drop_past : (xs ys : List ℕ) (m : ℕ) → drop (length xs + m) (xs ++ ys) ≡ drop m ys
drop_past [] ys m = ap (λ k. drop k ys) (omega arith)
drop_past (x ∷ xs) ys m =
    let e : suc (length xs) + m ≡ suc (length xs + m) = omega arith in rw e (drop_past xs ys m)

drop_here : {n : ℕ} (xs ys : List ℕ) → length xs ≡ n → drop n (xs ++ ys) ≡ ys
drop_here xs ys h = subst (λ k. drop k (xs ++ ys) ≡ ys) h (drop_append xs ys)

take_here : {n : ℕ} (xs ys : List ℕ) → length xs ≡ n → take n (xs ++ ys) ≡ xs
take_here xs ys h = subst (λ k. take k (xs ++ ys) ≡ xs) h (take_append xs ys)

-- Forgetting early or late is the same.
pub last_n_append : (n : ℕ) (xs ys : List ℕ) → last_n n (last_n n xs ++ ys) ≡ last_n n (xs ++ ys)
last_n_append n xs ys =
    let k = length xs - n in
    let front = take k xs in
    let back = drop k xs in
    let split : front ++ back ≡ xs = take-append-drop k xs in
    let len_front : length front ≡ k = omega (arith, length-take k xs) in
    let len_back : length back ≡ length xs - k = length-drop k xs in
    let m = length (back ++ ys) - n in
    let len : length (xs ++ ys) - n ≡ length front + m =
      omega (arith, len_front, len_back, length-append xs ys, length-append back ys) in
    let e : xs ++ ys ≡ front ++ (back ++ ys) =
      ap (λ zs. zs ++ ys) (sym split) ∙ append_assoc front back ys in
    sym (
      ap (λ j. drop j (xs ++ ys)) len
      ∙ ap (drop (length front + m)) e
      ∙ drop_past front (back ++ ys) m)

pub last_n_whole : (n : ℕ) (xs : List ℕ) → length xs ≤ n → last_n n xs ≡ xs
last_n_whole n xs h = let e : length xs - n ≡ 0 = omega arith in ap (λ k. drop k xs) e

last_n_cut : (n : ℕ) (xs ys : List ℕ) → length ys ≡ n → last_n n (xs ++ ys) ≡ ys
last_n_cut n xs ys h =
    let e : length (xs ++ ys) - n ≡ length xs = omega (arith, length-append xs ys) in
    ap (λ k. drop k (xs ++ ys)) e ∙ drop_append xs ys

nil_of_length : (xs : List ℕ) → length xs ≡ 0 → xs ≡ []
nil_of_length [] h = refl
nil_of_length (x ∷ xs) h = absurd (omega arith)

-- A buffer cut at the write position and after the bytes that are overwritten.
module _ (sb : StderrBuffer) (p : List ℕ) (r : IsRing sb)
    (fits : sb.pos + length p ≤ stderr_buf_size) where
  old_before : List ℕ
  old_before = take sb.pos sb.buf

  old_under : List ℕ
  old_under = take (length p) (drop sb.pos sb.buf)

  old_after : List ℕ
  old_after = drop (length p) (drop sb.pos sb.buf)

  length-old_before : length old_before ≡ sb.pos
  unfolding old_before
  length-old_before = omega (arith, length-take sb.pos sb.buf, r.sized, r.inside)

  length-old_under : length old_under ≡ length p
  unfolding old_under
  length-old_under =
      omega (arith, length-take (length p) (drop sb.pos sb.buf), length-drop sb.pos sb.buf, r.sized)

  old_split : sb.buf ≡ old_before ++ (old_under ++ old_after)
  unfolding old_before old_under old_after
  old_split = rw (take-append-drop (length p) (drop sb.pos sb.buf), take-append-drop sb.pos sb.buf)

  new_split : copy_at sb.pos sb.buf p ≡ old_before ++ (p ++ old_after)
  new_split =
      ap (λ b. copy_at sb.pos b p) old_split
      ∙ subst
          (λ k.
            copy_at k (old_before ++ (old_under ++ old_after)) p ≡ old_before ++ (p ++ old_after))
          length-old_before (copy_at_exact old_before old_under old_after p length-old_under)

  new_length : length (copy_at sb.pos sb.buf p) ≡ stderr_buf_size
  new_length = omega (
    arith,
    ap length new_split,
    ap length old_split,
    length-append old_before (p ++ old_after),
    length-append p old_after,
    length-append old_before (old_under ++ old_after),
    length-append old_under old_after,
    length-old_under,
    r.sized,
  )

  pub write_last-IsRing : IsRing (write_last p sb)
  unfolding write_last
  write_last-IsRing = ground (arith, new_length, stderr_buf_size_pos)

  length-old_after : length old_after ≡ stderr_buf_size - (sb.pos + length p)
  unfolding old_after
  length-old_after =
      omega (arith, length-drop (length p) (drop sb.pos sb.buf), length-drop sb.pos sb.buf, r.sized)

  length-before_p : length (old_before ++ p) ≡ sb.pos + length p
  length-before_p = omega (arith, length-append old_before p, length-old_before)

  new_split_left : copy_at sb.pos sb.buf p ≡ (old_before ++ p) ++ old_after
  new_split_left = new_split ∙ sym (append_assoc old_before p old_after)

  take_new : take (sb.pos + length p) (copy_at sb.pos sb.buf p) ≡ old_before ++ p
  take_new = rw new_split_left (take_here (old_before ++ p) old_after length-before_p)

  drop_new : drop (sb.pos + length p) (copy_at sb.pos sb.buf p) ≡ old_after
  drop_new = rw new_split_left (drop_here (old_before ++ p) old_after length-before_p)

  last_not_full : last_n stderr_buf_size (take sb.pos sb.buf ++ p) ≡ old_before ++ p
  unfolding old_before
  last_not_full = last_n_whole stderr_buf_size (old_before ++ p) (omega (arith, length-before_p))

  last_full :
      last_n stderr_buf_size ((drop sb.pos sb.buf ++ take sb.pos sb.buf) ++ p)
      ≡ old_after ++ (old_before ++ p)
  unfolding old_before old_after
  last_full =
      let u = take (length p) (drop sb.pos sb.buf) in
      let under : u ++ old_after ≡ drop sb.pos sb.buf =
        take-append-drop (length p) (drop sb.pos sb.buf) in
      let kept = old_after ++ (old_before ++ p) in
      let e : (drop sb.pos sb.buf ++ old_before) ++ p ≡ u ++ kept =
        ap (λ z. (z ++ old_before) ++ p) (sym under)
        ∙ append_assoc (u ++ old_after) old_before p
        ∙ append_assoc u old_after (old_before ++ p) in
      ap (last_n stderr_buf_size) e
      ∙ last_n_cut stderr_buf_size u kept (
          omega
            (arith, length-append old_after (old_before ++ p), length-before_p, length-old_after))

  pub content-write_last : content (write_last p sb) ≡ last_n stderr_buf_size (content sb ++ p)
  unfolding write_last
  content-write_last = ground (
    arith,
    take_new,
    drop_new,
    last_not_full,
    last_full,
    new_split_left,
    length-old_after,
    nil_of_length old_after,
    append-nil (copy_at sb.pos sb.buf p),
    append-nil (old_before ++ p),
  )
