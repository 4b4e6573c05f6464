-- ===== src/Prelude/Memory.antt =====
-- Allocated memory as lists of bytes: `memcpy`, `memset` and `malloc`, with their bounds.
use zapps.Prelude.{
  ℕ, zero, suc, ◌+◌, ◌≤◌, ◌≡◌, refl, ap, List, [], ◌∷◌, arith, leb, if◌then◌else◌, length, take,
  drop, Result, ok, err, bad_access, ◌++◌, ◌∙◌,
}

abbrev pub Bytes : Type 0
Bytes = List ℕ

-- Fresh memory holds whatever stood there: `heap` gives each byte.
abbrev pub malloc : (ℕ → ℕ) → ℕ → Bytes
malloc heap zero = []
malloc heap (suc n) = heap n ∷ malloc heap n

pub length-malloc : (heap : ℕ → ℕ) (n : ℕ) → length (malloc heap n) ≡ n
length-malloc heap zero = refl
length-malloc heap (suc n) = ap suc (length-malloc heap n)

abbrev pub overlay : Bytes → Bytes → Bytes
overlay xs [] = xs
overlay [] (b ∷ bs) = []
overlay (x ∷ xs) (b ∷ bs) = b ∷ overlay xs bs

-- The buffer with `bs` copied in from `off` on.
unfoldable pub put : Bytes → ℕ → Bytes → Bytes
put buf zero bs = overlay buf bs
put [] (suc off) bs = []
put (x ∷ buf) (suc off) bs = x ∷ put buf off bs

unfoldable pub slice : Bytes → ℕ → ℕ → Bytes
slice buf off n = take n (drop off buf)

-- memcpy(buf + off, bs, length bs)
unfoldable pub write : Bytes → ℕ → Bytes → Result Bytes
unfolding put
write buf off bs =
    if leb (off + length bs) (length buf) then ok (put buf off bs) else err bad_access

-- memcpy(_, buf + off, n)
unfoldable pub read : Bytes → ℕ → ℕ → Result Bytes
unfolding slice
read buf off n = if leb (off + n) (length buf) then ok (slice buf off n) else err bad_access

pub write-ok :
    (buf : Bytes) (off : ℕ) (bs : Bytes)
    → off + length bs ≤ length buf
    → write buf off bs ≡ ok (put buf off bs)
unfolding write
write-ok buf off bs h = ground arith

pub read-ok :
    (buf : Bytes) (off n : ℕ) → off + n ≤ length buf → read buf off n ≡ ok (slice buf off n)
unfolding read
read-ok buf off n h = ground arith

length-overlay : (xs bs : Bytes) → length (overlay xs bs) ≡ length xs
length-overlay xs [] = refl
length-overlay [] (b ∷ bs) = refl
length-overlay (x ∷ xs) (b ∷ bs) = ap suc (length-overlay xs bs)

pub length-put : (buf : Bytes) (off : ℕ) (bs : Bytes) → length (put buf off bs) ≡ length buf
unfolding put
length-put buf zero bs = length-overlay buf bs
length-put [] (suc off) bs = refl
length-put (x ∷ buf) (suc off) bs = ap suc (length-put buf off bs)

pub length-slice : (buf : Bytes) (off n : ℕ) → off + n ≤ length buf → length (slice buf off n) ≡ n
unfolding slice
length-slice buf zero zero h = refl
length-slice [] zero (suc n) h = absurd (omega arith)
length-slice (x ∷ buf) zero (suc n) h = ap suc (length-slice buf zero n (omega arith))
length-slice [] (suc off) n h = absurd (omega arith)
length-slice (x ∷ buf) (suc off) n h = length-slice buf off n (omega arith)

-- What was copied in is read back.
pub slice-put_same :
    (buf : Bytes) (off : ℕ) (bs : Bytes)
    → off + length bs ≤ length buf
    → slice (put buf off bs) off (length bs) ≡ bs
unfolding slice put
slice-put_same buf zero [] h = refl
slice-put_same [] zero (b ∷ bs) h = absurd (omega arith)
slice-put_same (x ∷ buf) zero (b ∷ bs) h = ap (◌∷◌ b) (slice-put_same buf zero bs (omega arith))
slice-put_same [] (suc off) bs h = absurd (omega arith)
slice-put_same (x ∷ buf) (suc off) bs h = slice-put_same buf off bs (omega arith)

take-overlay_beyond :
    (n : ℕ) (xs bs : Bytes) (o : ℕ)
    → length bs ≤ o
    → take n (drop o (overlay xs bs)) ≡ take n (drop o xs)
take-overlay_beyond n xs [] o h = refl
take-overlay_beyond n [] (b ∷ bs) o h = refl
take-overlay_beyond n (x ∷ xs) (b ∷ bs) zero h = absurd (omega arith)
take-overlay_beyond n (x ∷ xs) (b ∷ bs) (suc o) h = take-overlay_beyond n xs bs o (omega arith)

-- A read that ends before the copy, or starts behind it, does not see it.
pub slice-put_before :
    (buf : Bytes) (off : ℕ) (bs : Bytes) (o n : ℕ)
    → o + n ≤ off
    → slice (put buf off bs) o n ≡ slice buf o n
unfolding slice put
slice-put_before buf off bs zero zero h = refl
slice-put_before buf zero bs o (suc n) h = absurd (omega arith)
slice-put_before buf zero bs (suc o) n h = absurd (omega arith)
slice-put_before [] (suc off) bs o n h = refl
slice-put_before (x ∷ buf) (suc off) bs zero (suc n) h =
    ap (◌∷◌ x) (slice-put_before buf off bs zero n (omega arith))
slice-put_before (x ∷ buf) (suc off) bs (suc o) n h = slice-put_before buf off bs o n (omega arith)

pub slice-put_behind :
    (buf : Bytes) (off : ℕ) (bs : Bytes) (o n : ℕ)
    → off + length bs ≤ o
    → slice (put buf off bs) o n ≡ slice buf o n
unfolding slice put
slice-put_behind buf zero bs o n h = take-overlay_beyond n buf bs o (omega arith)
slice-put_behind [] (suc off) bs o n h = refl
slice-put_behind (x ∷ buf) (suc off) bs zero n h = absurd (omega arith)
slice-put_behind (x ∷ buf) (suc off) bs (suc o) n h = slice-put_behind buf off bs o n (omega arith)

take-overlay_extend :
    (buf bs : Bytes) (k : ℕ)
    → length bs + k ≤ length buf
    → take (length bs + k) (overlay buf bs) ≡ bs ++ take k (drop (length bs) buf)
take-overlay_extend buf [] k h = ap (λ n. take n buf) (omega arith)
take-overlay_extend [] (b ∷ bs) k h = absurd (omega arith)
take-overlay_extend (x ∷ buf) (b ∷ bs) k h =
    let e : suc (length bs) + k ≡ suc (length bs + k) = omega arith in
    rw e (ap (◌∷◌ b) (take-overlay_extend buf bs k (omega arith)))

-- A longer read shows the copy and what stood behind it.
pub slice-put_extend :
    (buf : Bytes) (off : ℕ) (bs : Bytes) (k : ℕ)
    → off + length bs + k ≤ length buf
    → slice (put buf off bs) off (length bs + k) ≡ bs ++ slice buf (off + length bs) k
unfolding slice put
slice-put_extend buf zero bs k h =
    take-overlay_extend buf bs k (omega arith) ∙ ap (λ n. bs ++ take k (drop n buf)) (omega arith)
slice-put_extend [] (suc off) bs k h = absurd (omega arith)
slice-put_extend (x ∷ buf) (suc off) bs k h =
    let e : suc off + length bs ≡ suc (off + length bs) = omega arith in
    rw e (slice-put_extend buf off bs k (omega arith))
