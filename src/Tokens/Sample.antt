-- ===== src/Tokens/Sample.antt =====
-- A token library for tests: a token is its claims as plain text.
use ingame.Prelude.{
  ℕ, zero, suc, ◌≤◌, ◌≡◌, refl, ap, String, Option, none, some, arith, ◌==◌, leb, if◌then◌else◌,
}
use Prim.Native.String.{[], ◌∷◌}
use Prim.Native.Char.{Char, code}
use ingame.Tokens.{TokenType, Claims, Jwt, JwtLaws}

-- A text with an end, before what follows: each character comes after a mark.
unfoldable pub show_text : String → String → String
show_text [] k = "e" ∷ k
show_text (c ∷ t) k = "m" ∷ c ∷ show_text t k

abbrev pub cons : Char → Option (String × String) → Option (String × String)
cons c none = none
cons c (some (t, k)) = some (c ∷ t, k)

unfoldable pub read_text : String → Option (String × String)
read_text [] = none
read_text (m ∷ []) = some ([], [])
read_text (m ∷ c ∷ s) = if code m == code "e" then some ([], c ∷ s) else cons c (read_text s)

read_text-show_text : (t k : String) → read_text (show_text t k) ≡ some (t, k)
unfolding read_text show_text
read_text-show_text [] [] = refl
read_text-show_text [] (c ∷ k) = refl
read_text-show_text (c ∷ t) k = ground (arith, read_text-show_text t k)

unfoldable pub show_nat : ℕ → String
show_nat zero = []
show_nat (suc n) = "x" ∷ show_nat n

unfoldable pub read_nat : String → ℕ
read_nat [] = zero
read_nat (c ∷ s) = suc (read_nat s)

read_nat-show_nat : (n : ℕ) → read_nat (show_nat n) ≡ n
unfolding read_nat show_nat
read_nat-show_nat zero = refl
read_nat-show_nat (suc n) = ground (arith, read_nat-show_nat n)

abbrev type_text : Option TokenType → String
type_text none = "n" ∷ []
type_text (some TokenType.access) = "a" ∷ []
type_text (some TokenType.refresh) = "r" ∷ []
type_text (some (TokenType.other t)) = "o" ∷ t

abbrev type_of_code : ℕ → String → Option TokenType
type_of_code n t =
    if n == code "a"
    then some TokenType.access
    else if n == code "r"
    then some TokenType.refresh
    else if n == code "o"
    then some (TokenType.other t)
    else none

abbrev read_type : String → Option TokenType
read_type [] = none
read_type (c ∷ t) = type_of_code (code c) t

abbrev sub_text : Option String → String
sub_text none = []
sub_text (some t) = "s" ∷ t

abbrev read_sub : String → Option String
read_sub [] = none
read_sub (c ∷ t) = some t

unfoldable pub encode : Claims → String
unfolding show_text show_nat
encode c = show_text (show_nat c.exp) (show_text (type_text c.type) (sub_text c.sub))

abbrev unexpired : ℕ → ℕ → Option (String × String) → Option Claims
unexpired now exp none = none
unexpired now exp (some (t, k)) =
    if leb now exp then some (record { sub = read_sub k; exp = exp; type = read_type t }) else none

unfoldable pub decode : ℕ → String → Option Claims
unfolding read_text read_nat
decode now s = elim (read_text s) [
  | none ↦ none
  | some e ↦ unexpired now (read_nat e.0) (read_text e.1)
]

read_type-type_text : (t : Option TokenType) → read_type (type_text t) ≡ t
read_type-type_text none = refl
read_type-type_text (some TokenType.access) = refl
read_type-type_text (some TokenType.refresh) = refl
read_type-type_text (some (TokenType.other t)) = refl

read_sub-sub_text : (t : Option String) → read_sub (sub_text t) ≡ t
read_sub-sub_text none = refl
read_sub-sub_text (some t) = refl

decode-encode : (now : ℕ) (c : Claims) → now ≤ c.exp → decode now (encode c) ≡ some c
unfolding decode encode
decode-encode now c h = ground (
  arith,
  h,
  read_nat-show_nat c.exp,
  read_type-type_text c.type,
  read_sub-sub_text c.sub,
  read_text-show_text (show_nat c.exp) (show_text (type_text c.type) (sub_text c.sub)),
  read_text-show_text (type_text c.type) (sub_text c.sub),
)

abbrev pub jwt : Jwt
jwt = record {
  encode = encode;
  decode = decode;
  show_uuid = show_nat;
  read_uuid = λ s. some (read_nat s);
  access_token_expire_minutes = 15;
  refresh_token_expire_days = 30;
}

pub jwt-JwtLaws : JwtLaws jwt
jwt-JwtLaws = record {
  decode-encode = decode-encode;
  read-show = λ u. ap some (read_nat-show_nat u);
}

-- Equal tokens expire at the same time.
pub encode-exp : (c d : Claims) → encode c ≡ encode d → c.exp ≡ d.exp
encode-exp c d e = ground (arith, e, decode-encode 0 c, decode-encode 0 d)
