-- ===== src/Netip/Parse/RoundTrip.antt =====
-- What is printed is read back: octets, addresses, lengths and prefixes.
use Prim.Native.Char.{Char, code}
use mathlib.Core.Path.{ap₂}
use text.Mathlib.TextLemmas.{nil-append, cons-append, append_assoc, append-nil}
use native.Mathlib.Decide.{ℕ_discrete}
use kube_ovn_global_vpc.Prelude.{
  ℕ, zero, suc, ◌+◌, ◌*◌, ◌/◌, ◌%◌, ◌-◌, ◌^◌, ◌≤◌, ◌<◌, ◌≡◌, refl, ap, sym, ◌∙◌, arith, Bool, true,
  false, leb, if◌then◌else◌, eqb, Bool-cases, inl, inr, leb→le, leb→lt, String, ◌⧺◌, some, none,
  ◌&&◌,
}
use kube_ovn_global_vpc.Netip.Parse.{
  digit, octet_text, addr_text, octets, parse_addr, cut_slash, number_text, parse_bits, parse_uint,
}

-- a digit is one character
pub digit-cons : (d : ℕ) → d < 10 → (c : Char) × (digit d ≡ String.◌∷◌ c "") × (code c ≡ 48 + d)
unfolding digit
digit-cons zero h = ("0", refl, refl)
digit-cons (suc zero) h = ("1", refl, refl)
digit-cons (suc (suc zero)) h = ("2", refl, refl)
digit-cons (suc (suc (suc zero))) h = ("3", refl, refl)
digit-cons (suc (suc (suc (suc zero)))) h = ("4", refl, refl)
digit-cons (suc (suc (suc (suc (suc zero))))) h = ("5", refl, refl)
digit-cons (suc (suc (suc (suc (suc (suc zero)))))) h = ("6", refl, refl)
digit-cons (suc (suc (suc (suc (suc (suc (suc zero))))))) h = ("7", refl, refl)
digit-cons (suc (suc (suc (suc (suc (suc (suc (suc zero)))))))) h = ("8", refl, refl)
digit-cons (suc (suc (suc (suc (suc (suc (suc (suc (suc zero))))))))) h = ("9", refl, refl)
digit-cons (suc (suc (suc (suc (suc (suc (suc (suc (suc (suc n)))))))))) h = absurd (omega arith)

octets-cons :
    (c : Char) (d : ℕ) (t : String) (pos acc val n : ℕ)
    → code c ≡ 48 + d
    → d < 10
    → (eqb n 1 && eqb val 0) ≡ false
    → val * 10 + d ≤ 255
    → octets (String.◌∷◌ c t) pos acc val n ≡ octets t pos acc (val * 10 + d) (n + 1)
unfolding octets
octets-cons c d t pos acc val n e h z k = let same : code c - 48 ≡ d = omega arith in ground arith

octets-digit :
    (d : ℕ) (t : String) (pos acc val n : ℕ)
    → d < 10
    → (eqb n 1 && eqb val 0) ≡ false
    → val * 10 + d ≤ 255
    → octets (digit d ⧺ t) pos acc val n ≡ octets t pos acc (val * 10 + d) (n + 1)
octets-digit d t pos acc val n h z k =
    let (c, e, f) = digit-cons d h in
    rw (e, cons-append, nil-append) (octets-cons c d t pos acc val n f h z k)

-- how many digits an octet has
width : ℕ → ℕ
width n = if leb 100 n then 3 else if leb 10 n then 2 else 1

module _ (n : ℕ) (t : String) (pos acc : ℕ) where
  octets_three :
      100 ≤ n
      → n < 256
      → octets (digit (n / 100) ⧺ digit (n / 10 % 10) ⧺ digit (n % 10) ⧺ t) pos acc 0 0
        ≡ octets t pos acc n 3
  octets_three h k =
      octets-digit (n / 100) _ pos acc 0 0 (omega arith) refl (omega arith)
      ∙ octets-digit (n / 10 % 10) _ pos acc _ _ (omega arith) (ground arith) (omega arith)
      ∙ octets-digit (n % 10) _ pos acc _ _ (omega arith) (ground arith) (omega arith)
      ∙ ap₂ (octets t pos acc) (omega arith) (omega arith)

  octets_two :
      10 ≤ n
      → n < 100
      → octets (digit (n / 10 % 10) ⧺ digit (n % 10) ⧺ t) pos acc 0 0 ≡ octets t pos acc n 2
  octets_two h k =
      octets-digit (n / 10 % 10) _ pos acc 0 0 (omega arith) refl (omega arith)
      ∙ octets-digit (n % 10) _ pos acc _ _ (omega arith) (ground arith) (omega arith)
      ∙ ap₂ (octets t pos acc) (omega arith) (omega arith)

  octets_one : n < 10 → octets (digit (n % 10) ⧺ t) pos acc 0 0 ≡ octets t pos acc n 1
  octets_one h =
      octets-digit (n % 10) _ pos acc 0 0 (omega arith) refl (omega arith)
      ∙ ap₂ (octets t pos acc) (omega arith) (omega arith)

  octets-octet_text : n < 256 → octets (octet_text n ⧺ t) pos acc 0 0 ≡ octets t pos acc n (width n)
  unfolding octet_text width
  octets-octet_text h = elim (Bool-cases (leb 100 n)) [
    | inl big ↦
        let also : leb 10 n ≡ true = ground arith in
        rw (big, also) (simp (append_assoc) (octets_three (leb→le 100 n big) h))
    | inr small ↦ elim (Bool-cases (leb 10 n)) [
      | inl two ↦
          rw (small, two)
            (simp (nil-append, append_assoc) (octets_two (leb→le 10 n two) (leb→lt 100 n small)))
      | inr one ↦ rw (small, one) (simp nil-append (octets_one (leb→lt 10 n one)))
    ]
  ]

width_pos : (n : ℕ) → eqb (width n) 0 ≡ false
unfolding width
width_pos n = ground arith

octets-dot :
    (t : String) (pos acc val n : ℕ)
    → eqb n 0 ≡ false
    → pos < 3
    → octets ("." ⧺ t) pos acc val n ≡ octets t (pos + 1) (acc * 256 + val) 0 0
octets-dot t pos acc val n h k = rw (cons-append, nil-append) (unfold octets in ground arith)

octets-end : (acc n : ℕ) → n < 256 → octets (octet_text n) 3 acc 0 0 ≡ some (acc * 256 + n)
octets-end acc n h =
    ap (λ s. octets s 3 acc 0 0) (sym (append-nil (octet_text n)))
    ∙ octets-octet_text n "" 3 acc h
    ∙ last n
  where
    last : (n : ℕ) → octets "" 3 acc n (width n) ≡ some (acc * 256 + n)
    last n = unfold octets in ground (arith, width_pos n)

octets_part :
    (n : ℕ) (t : String) (pos acc : ℕ)
    → n < 256
    → pos < 3
    → octets (octet_text n ⧺ "." ⧺ t) pos acc 0 0 ≡ octets t (pos + 1) (acc * 256 + n) 0 0
octets_part n t pos acc h k =
    octets-octet_text n ("." ⧺ t) pos acc h ∙ octets-dot t pos acc n (width n) (width_pos n) k

octets_four :
    (w x y z : ℕ)
    → w < 256
    → x < 256
    → y < 256
    → z < 256
    → octets (octet_text w ⧺ "." ⧺ octet_text x ⧺ "." ⧺ octet_text y ⧺ "." ⧺ octet_text z) 0 0 0 0
      ≡ some (((w * 256 + x) * 256 + y) * 256 + z)
octets_four w x y z hw hx hy hz =
    let last : String = octet_text z in
    let third : String = octet_text y ⧺ "." ⧺ last in
    octets_part w (octet_text x ⧺ "." ⧺ third) 0 0 hw (omega arith)
    ∙ octets_part x third 1 (0 * 256 + w) hx (omega arith)
    ∙ octets_part y last 2 ((0 * 256 + w) * 256 + x) hy (omega arith)
    ∙ octets-end (((0 * 256 + w) * 256 + x) * 256 + y) z hz
    ∙ ap some (omega arith)

-- The text of an address is read back as the address.
pub parse_addr-addr_text : (a : ℕ) → a < 2 ^ 32 → parse_addr (addr_text a) ≡ some a
unfolding parse_addr addr_text
parse_addr-addr_text a h =
    octets_four (a / 2 ^ 24 % 256) (a / 2 ^ 16 % 256) (a / 2 ^ 8 % 256) (a % 256) (omega arith)
      (omega arith) (omega arith) (omega arith)
    ∙ ap some (omega arith)

-- A text without a slash is cut off at the slash behind it.
pub cut_slash-slash : (s t : String) → cut_slash s ≡ none → cut_slash (s ⧺ "/" ⧺ t) ≡ some (s, t)
unfolding cut_slash
cut_slash-slash String.[] t h = rw (nil-append, cons-append, nil-append) refl
cut_slash-slash (String.◌∷◌ c s) t h = rw cons-append (ground (arith, cut_slash-slash s t))

cut_slash-append :
    (s t : String) → cut_slash s ≡ none → cut_slash t ≡ none → cut_slash (s ⧺ t) ≡ none
unfolding cut_slash
cut_slash-append String.[] t h k = rw nil-append k
cut_slash-append (String.◌∷◌ c s) t h k = rw cons-append (ground (arith, cut_slash-append s t))

cut_slash-digit : (d : ℕ) → d < 10 → cut_slash (digit d) ≡ none
unfolding cut_slash
cut_slash-digit d h = let (c, e, f) = digit-cons d h in rw e (ground arith)

cut_slash-octet_text : (n : ℕ) → n < 256 → cut_slash (octet_text n) ≡ none
unfolding octet_text
cut_slash-octet_text n h = cut_slash-append _ _ (front (leb 100 n) (n / 100) (omega arith)) (
    cut_slash-append _ _ (front (leb 10 n) (n / 10 % 10) (omega arith))
      (cut_slash-digit (n % 10) (omega arith)))
  where
    front : (b : Bool) (d : ℕ) → d < 10 → cut_slash (if b then digit d else "") ≡ none
    front true d k = cut_slash-digit d k
    front false d k = unfold cut_slash in refl

cut_slash-dot : (t : String) → cut_slash t ≡ none → cut_slash ("." ⧺ t) ≡ none
cut_slash-dot t h = cut_slash-append "." t (unfold cut_slash in refl) h

cut_slash-addr_text : (a : ℕ) → cut_slash (addr_text a) ≡ none
unfolding addr_text
cut_slash-addr_text a =
    let octet : (n : ℕ) → cut_slash (octet_text (n % 256)) ≡ none =
      λ n. cut_slash-octet_text (n % 256) (omega arith) in
    cut_slash-append _ _ (octet (a / 2 ^ 24)) (
      cut_slash-dot _ (
        cut_slash-append _ _ (octet (a / 2 ^ 16))
          (cut_slash-dot _ (cut_slash-append _ _ (octet (a / 2 ^ 8)) (cut_slash-dot _ (octet a))))))

-- An address before a slash is cut off there.
pub cut_slash-addr_text_slash :
    (a : ℕ) (t : String) → cut_slash (addr_text a ⧺ "/" ⧺ t) ≡ some (addr_text a, t)
cut_slash-addr_text_slash a t = cut_slash-slash (addr_text a) t (cut_slash-addr_text a)

-- the values at which a length is read back as printed
reads_back : ℕ → ℕ → Bool
reads_back zero n = true
reads_back (suc k) n =
    (elim (parse_bits (number_text n)) [ none ↦ false | some m ↦ eqb m n ]) && reads_back k (n + 1)

reads_back_table : reads_back 33 0 ≡ true
unfolding reads_back parse_bits parse_uint number_text
reads_back_table = refl

reads_back_sound :
    (k m n : ℕ) → reads_back k m ≡ true → m ≤ n → n < m + k → parse_bits (number_text n) ≡ some n
unfolding reads_back
reads_back_sound zero m n h le lt = absurd (omega arith)
reads_back_sound (suc k) m n h le lt = elim (ℕ_discrete m n) [
  | yes e ↦ ground arith
  | no e ↦ reads_back_sound k (m + 1) n (ground arith) (omega arith) (omega arith)
]

-- A prefix length is read back as printed.
pub parse_bits-number_text : (n : ℕ) → n ≤ 32 → parse_bits (number_text n) ≡ some n
parse_bits-number_text n h = reads_back_sound 33 0 n reads_back_table (omega arith) (omega arith)
