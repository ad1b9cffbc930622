-- ===== src/Json.antt =====
-- What the program uses of encoding/json. A body, a stored payload or a file is either text that is
-- no JSON document, or the document that it spells. Unmarshal goes through the members of an
-- object in their order; a key names the field of the struct that it equals when the case of its
-- letters is ignored, and a value of another type is an error after which Unmarshal goes on.
use Prim.Native.Nat.{◌+◌}
use Prim.Native.Char.{code}
use fidex_go_node.Common.{
  ℕ, String, Bool, true, false, Option, none, some, List, [], ◌∷◌, ◌&&◌, is_empty, leb, same_number,
  if◌then◌else◌, ltb, ℤ, pos, negsuc, zero, suc, ◌-◌, ◌*◌, ◌^◌,
}

mutual
  pub data Json : Type 0 where
    null : Json
    bool : Bool → Json
    number : String → Json
    text : String → Json
    array : Items → Json
    object : Fields → Json

  pub data Items : Type 0 where
    nil : Items
    cons : Json → Items → Items

  pub data Fields : Type 0 where
    end : Fields
    field : String → Json → Fields → Fields

pub data Body : Type 0 where
  raw : String → Body
  json : Json → Body

abbrev pub is_empty_body : Body → Bool
is_empty_body (raw s) = is_empty s
is_empty_body (json v) = false

abbrev pub is_no_field : Fields → Bool
is_no_field end = true
is_no_field (field k v fs) = false

abbrev append_fields : Fields → Fields → Fields
append_fields end gs = gs
append_fields (field k v fs) gs = field k v (append_fields fs gs)

-- The case folding of a letter; the long s and the Kelvin sign fold to ASCII letters too.
fold_code : ℕ → ℕ
fold_code c =
    if leb b'A' c && leb c b'Z'
    then c + 32
    else if same_number c 0x17f
    then b's'
    else if same_number c 0x212a
    then b'k'
    else c

unfoldable pub same_key : String → String → Bool
unfolding fold_code
same_key String.[] String.[] = true
same_key String.[] (String.◌∷◌ d t) = false
same_key (String.◌∷◌ c s) String.[] = false
same_key (String.◌∷◌ c s) (String.◌∷◌ d t) =
    same_number (fold_code (code c)) (fold_code (code d)) && same_key s t

-- A field of a struct: its key, and what a value makes of the struct, with whether it is accepted.
pub record Member (S : Type 0) : Type 0 where
  pub key : String
  pub put : Json → S → S × Bool

module _ {S : Type 0} where
  unfoldable set_member : List (Member S) → String → Json → S → S × Bool
  set_member [] key v s = (s, true)
  set_member (m ∷ ms) key v s = if same_key key m.key then m.put v s else set_member ms key v s

  unfoldable decode_fields : List (Member S) → Fields → S → S × Bool
  unfolding set_member
  decode_fields ms end s = (s, true)
  decode_fields ms (field key v fs) s =
      let (s', fits) = set_member ms key v s in
      let (s'', fit) = decode_fields ms fs s' in (s'', fits && fit)

  -- A value into a struct: `null` leaves it as it is.
  unfoldable pub decode_value : List (Member S) → Json → S → S × Bool
  unfolding decode_fields
  decode_value ms null s = (s, true)
  decode_value ms (object fs) s = decode_fields ms fs s
  decode_value ms _ s = (s, false)

  -- `json.Unmarshal(body, &s)`: the struct afterwards, and whether the error is nil.
  unfoldable pub decode : List (Member S) → Body → S → S × Bool
  unfolding decode_value
  decode ms (raw t) s = (s, false)
  decode ms (json v) s = decode_value ms v s

  abbrev pub text_member : String → (String → S → S) → Member S
  text_member key set = record {
    key = key;
    put = λ v s. elim v [ null ↦ (s, true) | text t ↦ (set t s, true) | _ ↦ (s, false) ];
  }

-- A member that is a struct itself.
abbrev pub struct_member :
    {S T : Type 0} → String → List (Member T) → (S → T) → (T → S → S) → Member S
struct_member key ms get set = record {
  key = key;
  put = λ v s. let (t, fits) = decode_value ms v (get s) in (set t s, fits);
}

unfoldable pub digits_from : ℕ → String → Option ℕ
digits_from n String.[] = some n
digits_from n (String.◌∷◌ c s) =
    let rest = digits_from (n * 10 + (code c - b'0')) s in
    if leb b'0' (code c) && leb (code c) b'9' then rest else none

unfoldable pub digits : String → Option ℕ
unfolding digits_from
digits String.[] = none
digits (String.◌∷◌ c s) = digits_from 0 (String.◌∷◌ c s)

unfoldable pub within_int : Option ℕ → Option ℤ
within_int none = none
within_int (some n) = if ltb n (2 ^ 63) then some (pos n) else none

negative_int : Option ℕ → Option ℤ
negative_int none = none
negative_int (some zero) = some (pos 0)
negative_int (some (suc n)) = if ltb n (2 ^ 63) then some (negsuc n) else none

-- The value of a number that fits an int.
unfoldable pub integer : String → Option ℤ
unfolding digits within_int negative_int
integer String.[] = none
integer (String.◌∷◌ c s) =
    if same_number (code c) b'-'
    then negative_int (digits s)
    else within_int (digits (String.◌∷◌ c s))

abbrev pub int_member : {S : Type 0} → String → (ℤ → S → S) → Member S
int_member key set = record {
  key = key;
  put = λ v s. elim v [
    | null ↦ (s, true)
    | number t ↦ elim (integer t) [ none ↦ (s, false) | some n ↦ (set n s, true) ]
    | _ ↦ (s, false)
  ];
}

-- The elements of an array into a []string.
unfoldable pub decode_texts : Items → List String × Bool
decode_texts nil = ([], true)
decode_texts (cons v vs) =
    let (rest, fit) = decode_texts vs in
    elim v [ null ↦ ("" ∷ rest, fit) | text t ↦ (t ∷ rest, fit) | _ ↦ ("" ∷ rest, false) ]

unfoldable pub encode_texts : List String → Items
encode_texts [] = nil
encode_texts (t ∷ ts) = cons (text t) (encode_texts ts)

abbrev pub texts_member : {S : Type 0} → String → (List String → S → S) → Member S
texts_member key set = record {
  key = key;
  put = λ v s. elim v [
    | null ↦ (set [] s, true)
    | array items ↦ (let (ts, fits) = decode_texts items in (set ts s, fits))
    | _ ↦ (s, false)
  ];
}

-- A member that `omitempty` leaves out when it is empty.
abbrev pub text_unless_empty : String → String → Fields → Fields
text_unless_empty key s fs = if is_empty s then fs else field key (text s) fs

-- The `job_type` of `struct { JobType string }`, and whether the payload could be decoded.
unfoldable pub probe_job_type : Body → String × Bool
probe_job_type body = decode (text_member "job_type" (λ t s. t) ∷ []) body ""

-- The same for a []string.
abbrev pub texts_unless_empty : String → List String → Fields → Fields
texts_unless_empty key [] fs = fs
texts_unless_empty key (t ∷ ts) fs = field key (array (encode_texts (t ∷ ts))) fs
