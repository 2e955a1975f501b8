-- ===== src/NetworkId/Scan.antt =====
-- The integrity check of the retained claims, the first part of `networkIDs`. The JSON codec and the
-- hash behind `networkIDShard` are parameters; a range over a decoded map meets its entries in the
-- order of the list.
use Prim.Native.Char.{code}
use kube_ovn_global_vpc.Prelude.{
  ℕ, String, Bool, true, false, not, ◌&&◌, ◌||◌, Option, none, some, List, [], ◌∷◌, Map, put,
  text_at, any, ltb, leb, eqb, ◌==◌, Result, ok, err, invalid, reject, ◌>>=◌, ◌>>◌, if◌then◌else◌,
}
use kube_ovn_global_vpc.Kube.Client.{ConfigMap}

-- `networkIDShard`; `json.Unmarshal` into a map of numbers of 32 bits, `none` for an error or a null;
-- and `json.Marshal` with the length of its text
pub record Codec : Type 0 where
  pub shard : String → String
  pub decode : String → Option (Map ℕ)
  pub encode : Map ℕ → String
  pub encoded_length : Map ℕ → ℕ

abbrev pub allocator_label : String
allocator_label = "platform.globalvpc.io/allocator"

abbrev pub claim_prefix : String
claim_prefix = "network-id-claims-"

abbrev pub claims_label : String
claims_label = "network-id-claims"

abbrev pub max_network_id : ℕ
max_network_id = 16777215

-- `strings.CutPrefix`
unfoldable pub cut_prefix : String → String → Option String
cut_prefix String.[] s = some s
cut_prefix (String.◌∷◌ c p) String.[] = none
cut_prefix (String.◌∷◌ c p) (String.◌∷◌ d s) =
    let rest = cut_prefix p s in if eqb (code c) (code d) then rest else none

abbrev pub has_prefix : Option String → Bool
has_prefix none = false
has_prefix (some _) = true

abbrev pub or_else : String → Option String → String
or_else s none = s
or_else s (some t) = t

-- `len(s) == 2`, in bytes of UTF-8
unfoldable pub two_bytes : String → Bool
two_bytes String.[] = false
two_bytes (String.◌∷◌ c String.[]) = leb 128 (code c) && ltb (code c) 2048
two_bytes (String.◌∷◌ c (String.◌∷◌ d String.[])) = ltb (code c) 128 && ltb (code d) 128
two_bytes (String.◌∷◌ c (String.◌∷◌ d (String.◌∷◌ e s))) = false

abbrev hex_digit : ℕ → Bool
hex_digit n = (leb b'0' n && leb n b'9') || (leb b'a' n && leb n b'f') || (leb b'A' n && leb n b'F')

-- whether `hex.DecodeString` decodes a text of two bytes
unfoldable pub is_hex : String → Bool
is_hex String.[] = true
is_hex (String.◌∷◌ c s) = let rest = is_hex s in hex_digit (code c) && rest

-- the variables of the scan: objects and claims by shard, the used numbers and the highest
pub record Scan : Type 0 where
  pub objects : Map ConfigMap
  pub claims : Map (Map ℕ)
  pub used : List ℕ
  pub highest : ℕ

abbrev pub no_claims : Scan
no_claims = record { objects = []; claims = []; used = []; highest = 0 }

-- the loop over the entries of one shard
unfoldable pub check_entries : Codec → String → List ℕ → ℕ → Map ℕ → Result (List ℕ × ℕ)
check_entries codec shard used highest [] = ok (used, highest)
check_entries codec shard used highest ((key, id) ∷ rest) = do
  reject (key == "" || not (codec.shard key == shard) || eqb id 0 || ltb max_network_id id)
      "invalid retained network ID claim"
  reject (any (eqb id) used) "duplicate retained network ID"
  check_entries codec shard (id ∷ used) (if ltb highest id then id else highest) rest

unfoldable pub decoded : Option (Map ℕ) → Result (Map ℕ)
decoded none = err (invalid "network ID claim shard is invalid or foreign")
decoded (some ids) = ok ids

abbrev pub shard_name : ConfigMap → String
shard_name cm = or_else cm.name (cut_prefix claim_prefix cm.name)

abbrev pub unrelated : ConfigMap → Bool
unrelated cm =
    not (has_prefix (cut_prefix claim_prefix cm.name))
    && not (text_at allocator_label cm.labels == claims_label)

-- an object that is a shard, by its name or by its label
unfoldable pub scan_shard : Codec → Scan → ConfigMap → Result Scan
scan_shard codec st cm = do
  reject
      (not (text_at allocator_label cm.labels == claims_label) || not (two_bytes (shard_name cm)))
      "network ID claim shard is invalid or foreign"
  ids ← decoded (codec.decode (text_at "claims.json" cm.values))
  reject (not (is_hex (shard_name cm))) "network ID claim shard name is invalid"
  checked ← check_entries codec (shard_name cm) st.used st.highest ids
  ok (record {
    objects = put (shard_name cm) cm st.objects;
    claims = put (shard_name cm) ids st.claims;
    used = checked.0;
    highest = checked.1;
  })

-- one round of the loop over the listed objects
unfoldable pub scan_item : Codec → Scan → ConfigMap → Result Scan
scan_item codec st cm = if unrelated cm then ok st else scan_shard codec st cm

unfoldable pub scan : Codec → Scan → List ConfigMap → Result Scan
scan codec st [] = ok st
scan codec st (cm ∷ rest) = do next ← scan_item codec st cm; scan codec next rest
