-- ===== src/Agents/Bindings/RoundTrip.antt =====
-- What is written with `encode` is read back by `decode`.
use cauco.Base.{
  ℕ, suc, ◌≡◌, refl, ap, String, Bool, true, false, not, ◌&&◌, ◌||◌, Option, none, some, List, [],
  ◌∷◌, Bool-cases, Option-cases, inl, inr, arith, length, ltb, nat_beq, ◌==◌, string_eq, ok,
  &&-true,
}
use cauco.Tools.Value
use cauco.Tools.Value.{Value, Items, Fields}
use cauco.Agents.Bindings.{
  Segment, StepOutputBinding, Input, Inputs, InputFields, marker, is_segment, segment_message,
  bad_segment, path_rejection, binding_rejection, segment_value, path_items, payload_of, encode,
  encode_items, encode_fields, count_items, read_segment, read_path, read_type, read_rest,
  read_binding, read_listed, read_three, read_payload, marked, decode, decode_items, decode_fields,
}

-- Every binding in an input passes its own checks, no mapping has the marker as its only key, and no
-- sequence is a list, since a tuple is what is read back.
abbrev pub is_unmarked : InputFields → Bool
is_unmarked (InputFields.field k x InputFields.end) = not (k == marker)
is_unmarked _ = true

abbrev pub is_none : Option String → Bool
is_none none = true
is_none (some message) = false

unfoldable mutual
  pub is_plain : (ℕ → String) → Input → Bool
  is_plain decimal (Input.binding b) = is_none (binding_rejection decimal b)
  is_plain decimal (Input.sequence xs) = are_plain decimal xs
  is_plain decimal (Input.mapping fs) = is_unmarked fs && fields_plain decimal fs
  is_plain decimal (Input.array xs) = false
  is_plain decimal _ = true

  pub are_plain : (ℕ → String) → Inputs → Bool
  are_plain decimal Inputs.nil = true
  are_plain decimal (Inputs.cons x xs) = is_plain decimal x && are_plain decimal xs

  pub fields_plain : (ℕ → String) → InputFields → Bool
  fields_plain decimal InputFields.end = true
  fields_plain decimal (InputFields.field k x fs) = is_plain decimal x && fields_plain decimal fs

count_items-path_items : (path : List Segment) → count_items (path_items path) ≡ length path
unfolding count_items path_items
count_items-path_items [] = refl
count_items-path_items (s ∷ path) = ap suc (count_items-path_items path)

read_segment-segment_value : (s : Segment) → read_segment (segment_value s) ≡ some s
read_segment-segment_value (Segment.key k) = refl
read_segment-segment_value (Segment.index i) = refl

some_ne_none : (m : String) → ¬ (◌≡◌ {A = Option String} (some m) none)
some_ne_none m h = absurd (cc)

read_path-path_items :
    (path : List Segment) → bad_segment path ≡ none → read_path (path_items path) ≡ ok path
unfolding read_path path_items bad_segment
read_path-path_items [] h = refl
read_path-path_items (s ∷ path) h = elim (Bool-cases (is_segment s)) [
  | inl good ↦
      let rest = read_path-path_items path (rw good at h) in
      rw (read_segment-segment_value s, rest, good) refl
  | inr bad ↦ absurd (some_ne_none (segment_message s) (rw bad at h))
]

read_payload-payload_of :
    (decimal : ℕ → String) (b : StepOutputBinding)
    → binding_rejection decimal b ≡ none
    → read_payload decimal (Value.mapping (payload_of b)) ≡ ok (Input.binding b)
unfolding read_payload Value.get read_three read_listed read_binding binding_rejection read_rest
    read_type
read_payload-payload_of decimal b h = elim (Bool-cases (ltb b.source_step_index 1)) [
  | inl low ↦ absurd (some_ne_none _ (rw low at h))
  | inr positive ↦ elim (Bool-cases (nat_beq (length b.path) 0 || ltb 16 (length b.path))) [
    | inl wrong ↦ absurd (some_ne_none _ (rw (positive, wrong) at h))
    | inr fits ↦ elim (Option-cases (bad_segment b.path)) [
      | inr (message, bad) ↦ absurd (some_ne_none message (rw (positive, fits, bad) at h))
      | inl good ↦
          let rest : path_rejection decimal b ≡ none = rw (positive, fits, good) at h in
          rw (count_items-path_items b.path, positive, fits, read_path-path_items b.path good, rest)
            refl
    ]
  ]
]

is_none_lem : (o : Option String) → is_none o ≡ true → o ≡ none
is_none_lem none h = refl
is_none_lem (some m) h = absurd (cc)

marked-encode_fields :
    (decimal : ℕ → String) (fs : InputFields)
    → is_unmarked fs ≡ true
    → marked (encode_fields fs) ≡ none
unfolding marked encode_fields
marked-encode_fields decimal InputFields.end h = refl
marked-encode_fields decimal (InputFields.field k x InputFields.end) h = ground arith
marked-encode_fields decimal (InputFields.field k x (InputFields.field j y fs)) h = refl

mutual
  unfolding encode decode is_plain

  read_back :
      (decimal : ℕ → String) (x : Input)
      → is_plain decimal x ≡ true
      → decode decimal (encode x) ≡ ok x
  read_back decimal Input.null h = refl
  read_back decimal (Input.flag b) h = refl
  read_back decimal (Input.integer negative n) h = refl
  read_back decimal (Input.real bits) h = refl
  read_back decimal (Input.text s) h = refl
  read_back decimal (Input.binding b) h = read_payload-payload_of decimal b (is_none_lem _ h)
  read_back decimal (Input.sequence xs) h = rw (items_read_back decimal xs h) refl
  read_back decimal (Input.array xs) h = absurd (cc)
  read_back decimal (Input.mapping fs) h =
      let (unmarked, plain) = &&-true {a = is_unmarked fs} h in
      rw (marked-encode_fields decimal fs unmarked, fields_read_back decimal fs plain) refl

  items_read_back :
      (decimal : ℕ → String) (xs : Inputs)
      → are_plain decimal xs ≡ true
      → decode_items decimal (encode_items xs) ≡ ok xs
  items_read_back decimal Inputs.nil h = refl
  items_read_back decimal (Inputs.cons x xs) h =
      let (first, rest) = &&-true {a = is_plain decimal x} h in
      rw (read_back decimal x first, items_read_back decimal xs rest) refl

  pub fields_read_back :
      (decimal : ℕ → String) (fs : InputFields)
      → fields_plain decimal fs ≡ true
      → decode_fields decimal (encode_fields fs) ≡ ok fs
  fields_read_back decimal InputFields.end h = refl
  fields_read_back decimal (InputFields.field k x fs) h =
      let (first, rest) = &&-true {a = is_plain decimal x} h in
      rw (read_back decimal x first, fields_read_back decimal fs rest) refl

-- What `encode_step_output_bindings` writes, `decode_step_output_bindings` reads back as it was, for an
-- input whose bindings pass their own checks, whose sequences are tuples, and in which no mapping has the
-- marker as its only key.
pub decode-encode :
    (decimal : ℕ → String) (x : Input)
    → is_plain decimal x ≡ true
    → decode decimal (encode x) ≡ ok x
decode-encode decimal x h = read_back decimal x h
