-- ===== src/Netip/Parse.antt =====
-- `netip.ParseAddr`, `netip.ParsePrefix`, `Addr.String` and the decimal prints of strconv.
pub mod RoundTrip
pub mod Bounds
use Prim.Native.Char.{code}
use kube_ovn_global_vpc.Prelude.{
  ℕ, zero, suc, ◌+◌, ◌-◌, ◌*◌, ◌/◌, ◌%◌, ◌^◌, String, ◌⧺◌, Bool, true, false, not, ◌&&◌, ◌||◌,
  Option, none, some, ltb, leb, eqb, if◌then◌else◌,
}

-- one decimal digit
unfoldable pub digit : ℕ → String
digit zero = "0"
digit (suc zero) = "1"
digit (suc (suc zero)) = "2"
digit (suc (suc (suc zero))) = "3"
digit (suc (suc (suc (suc zero)))) = "4"
digit (suc (suc (suc (suc (suc zero))))) = "5"
digit (suc (suc (suc (suc (suc (suc zero)))))) = "6"
digit (suc (suc (suc (suc (suc (suc (suc zero))))))) = "7"
digit (suc (suc (suc (suc (suc (suc (suc (suc zero)))))))) = "8"
digit _ = "9"

-- `appendDecimal` of net/netip: up to three digits
unfoldable pub octet_text : ℕ → String
unfolding digit
octet_text n =
    (if leb 100 n then digit (n / 100) else "")
    ⧺ (if leb 10 n then digit (n / 10 % 10) else "")
    ⧺ digit (n % 10)

-- `strconv.Itoa` of a number below 10 ^ fuel
unfoldable pub decimal : ℕ → ℕ → String
unfolding digit
decimal zero n = ""
decimal (suc fuel) n =
    let front = decimal fuel (n / 10) in if ltb n 10 then digit n else front ⧺ digit (n % 10)

-- `strconv.Itoa` and `strconv.FormatUint` of a number of at most 20 digits, as 64 bits hold
unfoldable pub number_text : ℕ → String
unfolding decimal
number_text = decimal 20

-- `Addr.String` of an IPv4 address
unfoldable pub addr_text : ℕ → String
addr_text a =
    octet_text (a / 2 ^ 24 % 256)
    ⧺ "."
    ⧺ octet_text (a / 2 ^ 16 % 256)
    ⧺ "."
    ⧺ octet_text (a / 2 ^ 8 % 256)
    ⧺ "."
    ⧺ octet_text (a % 256)

abbrev pub is_digit : ℕ → Bool
is_digit c = leb b'0' c && leb c b'9'

-- The loop of `parseIPv4Fields`: the octets read, the octet being read, and how many digits of it.
-- Its tests for a leading, a doubled and a last dot all say that an octet has no digit.
unfoldable pub octets : String → ℕ → ℕ → ℕ → ℕ → Option ℕ
octets String.[] pos acc val digits =
    if eqb pos 3 && not (eqb digits 0) then some (acc * 256 + val) else none
octets (String.◌∷◌ c s) pos acc val digits =
    let d = code c - b'0' in
    let more = octets s pos acc (val * 10 + d) (digits + 1) in
    let next = octets s (pos + 1) (acc * 256 + val) 0 0 in
    if is_digit (code c)
    then (if (eqb digits 1 && eqb val 0) || ltb 255 (val * 10 + d) then none else more)
    else if eqb (code c) b'.'
    then (if eqb digits 0 || eqb pos 3 then none else next)
    else none

-- `netip.ParseAddr`, for an IPv4 address
unfoldable pub parse_addr : String → Option ℕ
parse_addr s = octets s 0 0 0 0

-- `strings.Cut(s, "/")`. For `ParsePrefix`, which cuts at the last slash, it is the same: a part
-- with a slash is neither an address nor a number.
unfoldable pub cut_slash : String → Option (String × String)
cut_slash String.[] = none
cut_slash (String.◌∷◌ c s) =
    let rest : Option (String × String) = elim (cut_slash s) [
      | none ↦ none
      | some (before, after) ↦ some (String.◌∷◌ c before, after)
    ] in
    if eqb (code c) b'/' then some ("", s) else rest

-- decimal digits, all of them, behind a number already read
unfoldable pub digits_value : String → ℕ → Option ℕ
digits_value String.[] n = some n
digits_value (String.◌∷◌ c s) n =
    let rest = digits_value s (n * 10 + (code c - b'0')) in if is_digit (code c) then rest else none

-- `strconv.ParseUint(s, 10, w)`, with its bound `limit = 2 ^ w - 1`
unfoldable pub parse_uint : ℕ → String → Option ℕ
unfolding digits_value
parse_uint limit String.[] = none
parse_uint limit (String.◌∷◌ c s) = elim (digits_value (String.◌∷◌ c s) 0) [
  | none ↦ none
  | some n ↦ if leb n limit then some n else none
]

-- the length behind the slash: no sign and no leading zero, at most 32
unfoldable pub parse_bits : String → Option ℕ
parse_bits String.[] = none
parse_bits (String.◌∷◌ c String.[]) = parse_uint 32 (String.◌∷◌ c String.[])
parse_bits (String.◌∷◌ c (String.◌∷◌ d s)) =
    if ltb (code c) b'1' || ltb b'9' (code c)
    then none
    else parse_uint 32 (String.◌∷◌ c (String.◌∷◌ d s))
