-- ===== src/Content/Ids.antt =====
-- `newID` of services/api/internal/content/service.go: the text of a random UUID. A byte's bits are
-- kept by remainders, `b & 0x0f | 0x40` as `b % 16 + 64`.
use learning_garden_server.Prelude.{
  ℕ, zero, suc, ◌+◌, ◌/◌, ◌%◌, ◌<◌, ◌≡◌, refl, false, Option, none, some, List, [], ◌∷◌, Text, take,
  arith, All, All-append, All-take, codes,
}
use mathlib.Core.List.{append_assoc}
use learning_garden_server.Strings.{is_space, trim_space, join}
use learning_garden_server.Strings.Trim.{trim-All_kept}
use learning_garden_server.Strconv.{hex_digit, hex_encode}

-- `raw[n:]`
abbrev drop : ℕ → List ℕ → List ℕ
drop zero raw = raw
drop (suc n) [] = []
drop (suc n) (b ∷ raw) = drop n raw

-- `raw[i] = f(raw[i])`
abbrev change_at : ℕ → (ℕ → ℕ) → List ℕ → List ℕ
change_at i f [] = []
change_at zero f (b ∷ raw) = f b ∷ raw
change_at (suc i) f (b ∷ raw) = b ∷ change_at i f raw

-- `raw[from:to]`, in hex
abbrev hex_part : (from count : ℕ) → List ℕ → Text
hex_part from count raw = hex_encode (take count (drop from raw))

abbrev stamped : List ℕ → List ℕ
stamped raw = change_at 8 (λ b. b % 64 + 128) (change_at 6 (λ b. b % 16 + 64) raw)

abbrev parts : List ℕ → List Text
parts raw =
    hex_part 0 4 raw
    ∷ hex_part 4 2 raw
    ∷ hex_part 6 2 raw
    ∷ hex_part 8 2 raw
    ∷ hex_part 10 6 raw
    ∷ []

-- Where the random source fails, the hex digits of the clock's text.
unfoldable pub new_id : Option (List ℕ) → (clock : List ℕ) → Text
unfolding hex_encode join
new_id none clock = hex_encode clock
new_id (some raw) clock = join (b'-' ∷ []) (parts (stamped raw))

abbrev pub IsByte : ℕ → Type 0
IsByte b = b < 256

abbrev IsUnspaced : ℕ → Type 0
IsUnspaced c = is_space c ≡ false

is_space-hex_digit : (n : ℕ) → n < 16 → IsUnspaced (hex_digit n)
unfolding is_space hex_digit
is_space-hex_digit n h = ground arith

hex_encode-IsUnspaced : (raw : List ℕ) → All IsByte raw → All IsUnspaced (hex_encode raw)
unfolding hex_encode
hex_encode-IsUnspaced [] h = tt
hex_encode-IsUnspaced (b ∷ raw) (p, h) = (
  is_space-hex_digit (b / 16) (omega arith),
  (is_space-hex_digit (b % 16) (omega arith), hex_encode-IsUnspaced raw h),
)

join-IsUnspaced : (ws : List Text) → All (All IsUnspaced) ws → All IsUnspaced (join (b'-' ∷ []) ws)
unfolding join is_space
join-IsUnspaced [] h = tt
join-IsUnspaced (w ∷ []) (p, h) = p
join-IsUnspaced (w ∷ v ∷ ws) (p, h) =
    let rest = join (b'-' ∷ []) (v ∷ ws) in
    rw (append_assoc w (b'-' ∷ []) rest)
      (All-append IsUnspaced w (b'-' ∷ rest) p (refl, join-IsUnspaced (v ∷ ws) h))

drop-IsByte : (n : ℕ) (raw : List ℕ) → All IsByte raw → All IsByte (drop n raw)
drop-IsByte zero raw h = h
drop-IsByte (suc n) [] h = tt
drop-IsByte (suc n) (b ∷ raw) (p, h) = drop-IsByte n raw h

change_at-IsByte :
    (i : ℕ) (f : ℕ → ℕ) (raw : List ℕ)
    → ((b : ℕ) → IsByte (f b))
    → All IsByte raw
    → All IsByte (change_at i f raw)
change_at-IsByte i f [] k h = tt
change_at-IsByte zero f (b ∷ raw) k (p, h) = (k b, h)
change_at-IsByte (suc i) f (b ∷ raw) k (p, h) = (p, change_at-IsByte i f raw k h)

hex_part-IsUnspaced :
    (from count : ℕ) (raw : List ℕ) → All IsByte raw → All IsUnspaced (hex_part from count raw)
hex_part-IsUnspaced from count raw h =
    hex_encode-IsUnspaced _ (All-take IsByte count (drop from raw) (drop-IsByte from raw h))

stamped-IsByte : (raw : List ℕ) → All IsByte raw → All IsByte (stamped raw)
stamped-IsByte raw h =
    change_at-IsByte 8 _ _ (λ b. omega arith) (change_at-IsByte 6 _ raw (λ b. omega arith) h)

-- An id that is made of random bytes is its own trimmed text.
pub trim_space-new_id :
    (raw clock : List ℕ)
    → All IsByte raw
    → trim_space (new_id (some raw) clock) ≡ new_id (some raw) clock
unfolding new_id trim_space
trim_space-new_id raw clock h =
    let all = stamped-IsByte raw h in
    trim-All_kept is_space (join (b'-' ∷ []) (parts (stamped raw))) (
      join-IsUnspaced (parts (stamped raw)) (
        hex_part-IsUnspaced 0 4 (stamped raw) all,
        (
          hex_part-IsUnspaced 4 2 (stamped raw) all,
          (
            hex_part-IsUnspaced 6 2 (stamped raw) all,
            (
              hex_part-IsUnspaced 8 2 (stamped raw) all,
              (hex_part-IsUnspaced 10 6 (stamped raw) all, tt),
            ),
          ),
        ),
      ))

new_id_test :
    new_id (some (0 ∷ 1 ∷ 2 ∷ 3 ∷ 4 ∷ 5 ∷ 255 ∷ 7 ∷ 255 ∷ 9 ∷ 10 ∷ 11 ∷ 12 ∷ 13 ∷ 14 ∷ 15 ∷ [])) []
    ≡ codes "00010203-0405-4f07-bf09-0a0b0c0d0e0f"
unfolding new_id
new_id_test = refl
