-- ===== src/StringBuffer/Cells.antt =====
-- Cells of a buffer before and after writes (src/util.c).
use gantt.Prelude.{
  ℕ, zero, suc, ◌+◌, ◌*◌, ◌≤◌, ◌<◌, ◌≡◌, refl, ap, List, [], ◌∷◌, ◌++◌, arith, length, get_or, set,
  take,
}
use gantt.Text.{Bytes}
use gantt.StringBuffer.{write_at, grow}

pub length-write_at :
    (cells : List ℕ) (i : ℕ) (src : Bytes) → length (write_at cells i src) ≡ length cells
unfolding write_at
length-write_at [] i src = refl
length-write_at (c ∷ cells) zero [] = refl
length-write_at (c ∷ cells) zero (s ∷ src) = ap suc (length-write_at cells zero src)
length-write_at (c ∷ cells) (suc i) src = ap suc (length-write_at cells i src)

take-zero : (cells : List ℕ) (n : ℕ) → n ≡ 0 → take n cells ≡ []
take-zero cells zero h = refl
take-zero cells (suc n) h = absurd (omega arith)

-- What was written stands behind what stood before.
pub take-write_at :
    (cells : List ℕ) (i n : ℕ) (src rest : Bytes)
    → i + length src ≡ n
    → i + length (src ++ rest) ≤ length cells
    → take n (write_at cells i (src ++ rest)) ≡ take i cells ++ src
unfolding write_at
take-write_at cells zero zero [] rest e h = refl
take-write_at cells zero (suc n) [] rest e h = absurd (omega arith)
take-write_at [] zero n (s ∷ src) rest e h = absurd (omega arith)
take-write_at (c ∷ cells) zero zero (s ∷ src) rest e h = absurd (omega arith)
take-write_at (c ∷ cells) zero (suc n) (s ∷ src) rest e h =
    ap (λ t. s ∷ t) (take-write_at cells zero n src rest (omega arith) (omega arith))
take-write_at [] (suc i) n src rest e h = absurd (omega arith)
take-write_at (c ∷ cells) (suc i) zero src rest e h = absurd (omega arith)
take-write_at (c ∷ cells) (suc i) (suc n) src rest e h =
    ap (λ t. c ∷ t) (take-write_at cells i n src rest (omega arith) (omega arith))

-- The byte behind a text that was written with it.
pub get_or-write_at :
    (cells : List ℕ) (i n : ℕ) (src : Bytes) (b d : ℕ)
    → i + length src ≡ n
    → n < length cells
    → get_or (write_at cells i (src ++ b ∷ [])) n d ≡ b
unfolding write_at
get_or-write_at [] i n src b d e h = absurd (omega arith)
get_or-write_at (c ∷ cells) zero zero [] b d e h = refl
get_or-write_at (c ∷ cells) zero (suc n) [] b d e h = absurd (omega arith)
get_or-write_at (c ∷ cells) zero zero (s ∷ src) b d e h = absurd (omega arith)
get_or-write_at (c ∷ cells) zero (suc n) (s ∷ src) b d e h =
    get_or-write_at cells zero n src b d (omega arith) (omega arith)
get_or-write_at (c ∷ cells) (suc i) zero src b d e h = absurd (omega arith)
get_or-write_at (c ∷ cells) (suc i) (suc n) src b d e h =
    get_or-write_at cells i n src b d (omega arith) (omega arith)

pub take-append :
    (n : ℕ) (cells more : List ℕ) → n ≤ length cells → take n (cells ++ more) ≡ take n cells
take-append zero cells more h = refl
take-append (suc n) [] more h = absurd (omega arith)
take-append (suc n) (c ∷ cells) more h = ap (λ t. c ∷ t) (take-append n cells more (omega arith))

pub get_or-append :
    (n : ℕ) (cells more : List ℕ) (d : ℕ)
    → n < length cells
    → get_or (cells ++ more) n d ≡ get_or cells n d
get_or-append n [] more d h = absurd (omega arith)
get_or-append zero (c ∷ cells) more d h = refl
get_or-append (suc n) (c ∷ cells) more d h = get_or-append n cells more d (omega arith)

-- A write of one cell is a write of one byte.
pub set-write_at : (cells : List ℕ) (i c : ℕ) → set cells i c ≡ write_at cells i (c ∷ [])
unfolding write_at
set-write_at [] i c = refl
set-write_at (d ∷ []) zero c = refl
set-write_at (d ∷ e ∷ cells) zero c = refl
set-write_at (d ∷ cells) (suc i) c = ap (λ t. d ∷ t) (set-write_at cells i c)

-- Writes one behind the other are one write.
pub write_at-write_at :
    (cells : List ℕ) (i n : ℕ) (src rest : Bytes)
    → i + length src ≡ n
    → write_at (write_at cells i src) n rest ≡ write_at cells i (src ++ rest)
unfolding write_at
write_at-write_at [] i n src rest e = refl
write_at-write_at (c ∷ cells) zero zero [] rest e = refl
write_at-write_at (c ∷ cells) zero (suc n) [] rest e = absurd (omega arith)
write_at-write_at (c ∷ cells) zero zero (s ∷ src) rest e = absurd (omega arith)
write_at-write_at (c ∷ cells) zero (suc n) (s ∷ src) rest e =
    ap (λ t. s ∷ t) (write_at-write_at cells zero n src rest (omega arith))
write_at-write_at (c ∷ cells) (suc i) zero src rest e = absurd (omega arith)
write_at-write_at (c ∷ cells) (suc i) (suc n) src rest e =
    ap (λ t. c ∷ t) (write_at-write_at cells i n src rest (omega arith))

-- The doubling ends with room enough.
pub grow-ge :
    (fuel new_alloc needed : ℕ)
    → 0 < new_alloc
    → needed ≤ new_alloc + fuel
    → (needed ≤ grow fuel new_alloc needed) × (new_alloc ≤ grow fuel new_alloc needed)
unfolding grow
grow-ge zero new_alloc needed h k = omega arith
grow-ge (suc fuel) new_alloc needed h k = ground (arith, grow-ge fuel (new_alloc * 2) needed)
