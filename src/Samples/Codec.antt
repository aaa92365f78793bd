-- ===== src/Samples/Codec.antt =====
-- Codecs that satisfy the laws of `Crypto`, of a form that evaluates.
use learning_garden_server.Prelude.{
  ℕ, zero, suc, ◌+◌, ◌-◌, ◌≡◌, refl, ap, Option, none, some, [], ◌∷◌, ◌++◌, map, Text, length,
  arith, Option-cases, inl, inr,
}
use learning_garden_server.Prelude.Int.{pos, negsuc}
use learning_garden_server.Prelude.Json.{Json, null, bool, num, str, arr, obj}
use learning_garden_server.Prelude.Map.{Map, lookup}
use learning_garden_server.Strings.Split.{Free}
use learning_garden_server.Auth.Crypto.{Crypto}

-- Moves every character past the separator.
abbrev pub shift : ℕ → Text → Text
shift n s = map (λ c. c + n) s

abbrev pub unshift : ℕ → Text → Option Text
unshift n s = some (map (λ c. c - n) s)

pub unshift-shift : (n : ℕ) (s : Text) → unshift n (shift n s) ≡ some s
unshift-shift n [] = refl
unshift-shift n (c ∷ s) = ground (arith, unshift-shift n s)

pub shift-Free : (n : ℕ) (s : Text) → Free n (shift (n + 1) s)
shift-Free n [] = tt
shift-Free n (c ∷ s) = ((λ e. omega arith), shift-Free n s)

-- The first characters, with zeros where there are too few.
unfoldable pub fit : ℕ → Text → Text
fit zero s = []
fit (suc n) [] = 0 ∷ fit n []
fit (suc n) (c ∷ s) = c ∷ fit n s

pub length-fit : (n : ℕ) (s : Text) → length (fit n s) ≡ n
unfolding fit
length-fit zero s = refl
length-fit (suc n) [] = ground (arith, length-fit n [])
length-fit (suc n) (c ∷ s) = ground (arith, length-fit n s)

-- A text as characters past the three marks.
abbrev pub quoted : Text → Text → Text
quoted [] r = r
quoted (c ∷ s) r = suc (suc (suc c)) ∷ quoted s r

abbrev pub entry : Option Text → Text → Json → Option Text
entry none k v = none
entry (some r) k (str s) = some (quoted k (0 ∷ quoted s (1 ∷ r)))
entry (some r) k (num (pos n)) = some (quoted k (2 ∷ suc (suc (suc n)) ∷ 1 ∷ r))
entry (some r) k _ = none

unfoldable pub encode : Map Json → Option Text
encode [] = some []
encode ((k, v) ∷ m) = entry (encode m) k v

-- What has been read from the right: a text, the value after it, and the entries after that.
abbrev pub Reading : Type 0
Reading = Text × Option Json × Map Json

abbrev pub finish : Reading → Map Json
finish (s, none, m) = m
finish (s, some v, m) = (s, v) ∷ m

abbrev pub first : Text → ℕ
first [] = 0
first (c ∷ s) = c

abbrev pub read : ℕ → Reading → Reading
read zero (s, v, m) = ([], some (str s), m)
read (suc zero) r = ([], none, finish r)
read (suc (suc zero)) (s, v, m) = ([], some (num (pos (first s))), m)
read (suc (suc (suc c))) (s, v, m) = (c ∷ s, v, m)

unfoldable pub decode : Text → Reading
decode [] = ([], none, [])
decode (c ∷ t) = read c (decode t)

decode-quoted :
    (s r : Text) (v : Option Json) (m : Map Json)
    → decode r ≡ ([], v, m)
    → decode (quoted s r) ≡ (s, v, m)
unfolding decode
decode-quoted [] r v m h = h
decode-quoted (c ∷ s) r v m h = ap (read (suc (suc (suc c)))) (decode-quoted s r v m h)

decode-entry :
    (k : Text) (v : Json) (r t : Text) (m : Map Json)
    → finish (decode r) ≡ m
    → entry (some r) k v ≡ some t
    → finish (decode t) ≡ (k, v) ∷ m
unfolding decode
decode-entry k (str s) r t m h e =
    let same : quoted k (0 ∷ quoted s (1 ∷ r)) ≡ t = cc in
    let value = decode-quoted s (1 ∷ r) none m (ap (λ x. ([], none, x)) h) in
    rw (← same) (ap finish (decode-quoted k _ (some (str s)) m (ap (read 0) value)))
decode-entry k (num (pos n)) r t m h e =
    let same : quoted k (2 ∷ suc (suc (suc n)) ∷ 1 ∷ r) ≡ t = cc in
    let value = ap (λ x. read 2 (read (suc (suc (suc n))) ([], none, x))) h in
    rw (← same) (ap finish (decode-quoted k _ (some (num (pos n))) m value))
decode-entry k (num (negsuc n)) r t m h e = cc
decode-entry k null r t m h e = cc
decode-entry k (bool b) r t m h e = cc
decode-entry k (arr xs) r t m h e = cc
decode-entry k (obj xs) r t m h e = cc

pub decode-encode : (m : Map Json) (t : Text) → encode m ≡ some t → finish (decode t) ≡ m
unfolding encode decode
decode-encode [] t e = ground arith
decode-encode ((k, v) ∷ m) t e = elim (Option-cases (encode m)) [
  | inl failed ↦ cc (rw failed at e)
  | inr (r, there) ↦ decode-entry k v r t m (decode-encode m r there) (rw there at e)
]

-- The codecs and a key that is the start of the password and salt.
abbrev pub toy_crypto : Crypto
toy_crypto = record {
  hmac = λ secret value. secret ++ value;
  id_key = λ password salt time memory threads key_len. fit key_len (password ++ salt);
  length-id_key =
      λ password salt time memory threads key_len. length-fit key_len (password ++ salt);
  url_encode = shift (b'.' + 1);
  url_decode = unshift (b'.' + 1);
  url_decode-url_encode = unshift-shift (b'.' + 1);
  url_encode-Free = shift-Free b'.';
  std_encode = shift (b'$' + 1);
  std_decode = unshift (b'$' + 1);
  std_decode-std_encode = unshift-shift (b'$' + 1);
  std_encode-Free = shift-Free b'$';
  marshal = encode;
  unmarshal = λ t. some (finish (decode t));
  unmarshal-marshal =
      λ m t exact e. (finish (decode t), refl, λ k. ap (lookup k) (decode-encode m t e));
}
