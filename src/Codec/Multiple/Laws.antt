-- ===== src/Codec/Multiple/Laws.antt =====
-- The tables of a ReadPropertyMultiple request are never overrun.
use std.Path.{subst}
use esp32_p4_bacnet_switches.Base.{
  ℕ, zero, suc, ◌+◌, ◌-◌, ◌≤◌, ◌≡◌, true, false, not, List, [], ◌∷◌, ◌++◌, arith, length,
  length-append, All, inl, inr, Bool-cases, ◌==◌, drop, ap,
}
use esp32_p4_bacnet_switches.Codec.Tags.{ObjectId, decode_context_object_id, consume_special_tag}
use esp32_p4_bacnet_switches.Codec.Requests.{
  Parsed, parsed, rejected, ReadPropertyRequest, >>=-eq-parsed, require-eq-parsed, or_reject,
  require, missing_required_parameter,
}
use esp32_p4_bacnet_switches.Codec.Multiple.{
  max_objects, max_references, ObjectEntry, MultipleRequest, no_requests, parse_reference,
  more_references, parse_references, parse_object, parse_objects, parse_read_property_multiple,
}

parsed_or {ℓ} : {A : Type ℓ} → A → Parsed A → A
parsed_or d (parsed a) = a
parsed_or d (rejected r) = d

parsed-transport {ℓ κ} : {A : Type ℓ} (P : A → Type κ) {a b : A} → parsed a ≡ parsed b → P a → P b
unfolding parsed_or
parsed-transport P {a} e p = subst P (ap (parsed_or a) e) p

-- The references of an entry stand in the table of references, and there is one at least.
abbrev pub EntryWithin : ℕ → ObjectEntry → Type 0
EntryWithin references o =
    (1 ≤ o.reference_count) × (o.reference_start + o.reference_count ≤ references)

pub record WithinTables (r : MultipleRequest) : Type 0 where
  pub references : length r.references ≤ max_references
  pub entries : All (EntryWithin (length r.references)) r.objects

All-append :
    (n : ℕ) (os : List ObjectEntry) (o : ObjectEntry)
    → All (EntryWithin n) os
    → EntryWithin n o
    → All (EntryWithin n) (os ++ (o ∷ []))
All-append n [] o h e = (e, tt)
All-append n (p ∷ os) o h e = (h.0, All-append n os o h.1 e)

All-mono :
    (m n : ℕ) (os : List ObjectEntry) → m ≤ n → All (EntryWithin m) os → All (EntryWithin n) os
All-mono m n [] le h = tt
All-mono m n (o ∷ os) le h = ((h.0.0, omega arith), All-mono m n os le h.1)

-- The inner loop adds references, and no more than there are free slots.
parse_references-within :
    (slots : ℕ) (rest : List ℕ) (object : ObjectId) (rs : List ReadPropertyRequest)
    {rs' : List ReadPropertyRequest} {behind : List ℕ}
    → parse_references slots rest object rs ≡ parsed (rs', behind)
    → (length rs ≤ length rs') × (length rs' ≤ length rs + slots)
unfolding parse_references
parse_references-within zero rest object rs e = ground arith
parse_references-within (suc slots) rest object rs e = elim (Bool-cases (more_references rest)) [
  | inr done ↦ ground (arith, rw (done, parse_references) at e)
  | inl more ↦
      let ((x, b), _, tail) =
        >>=-eq-parsed (parse_reference rest object) _ (rw (more, parse_references) at e) in
      omega (
        arith,
        parse_references-within slots b object (rs ++ (x ∷ [])) tail,
        length-append rs (x ∷ []),
      )
]

-- The new entry covers exactly the references that its object added.
add_entry :
    (r : MultipleRequest) (rs : List ReadPropertyRequest) (o : ObjectId)
    → WithinTables r
    → length r.references ≤ length rs
    → length rs ≤ max_references
    → (length rs == length r.references) ≡ false
    → WithinTables (record {
      references = rs;
      objects =
          r.objects
          ++ (record {
            object_id = o;
            reference_start = length r.references;
            reference_count = length rs - length r.references;
          }
              ∷ []);
    })
add_entry r rs o v longer within nonempty = record {
  references = within;
  entries =
      All-append (length rs) r.objects _
        (All-mono (length r.references) (length rs) r.objects longer v.entries)
        (ground arith, omega arith);
}

parse_object-within :
    (rest : List ℕ) (r : MultipleRequest) {r' : MultipleRequest} {behind : List ℕ}
    → parse_object rest r ≡ parsed (r', behind)
    → WithinTables r
    → WithinTables r' × (length r'.objects ≡ length r.objects + 1)
unfolding parse_object
parse_object-within rest r {r'} {behind} e v =
    let ((object, used), _, e1) =
      >>=-eq-parsed (or_reject (decode_context_object_id rest) missing_required_parameter) _ e in
    let inside = drop used rest in
    let (opened, _, e2) =
      >>=-eq-parsed (or_reject (consume_special_tag inside 1 true) missing_required_parameter) _
        e1 in
    let ((rs, tail), loop, e3) =
      >>=-eq-parsed
        (parse_references (max_references - length r.references) (drop opened inside) object
          r.references)
        _ e2 in
    let (_, nonempty, e4) =
      >>=-eq-parsed (require (not (length rs == length r.references)) missing_required_parameter) _
        e3 in
    let (closed, _, e5) =
      >>=-eq-parsed (or_reject (consume_special_tag tail 1 false) missing_required_parameter) _
        e4 in
    let bounds =
      parse_references-within (max_references - length r.references) (drop opened inside) object
        r.references loop in
    let entry =
      add_entry r rs object v bounds.0 (omega (arith, bounds.1, v.references))
        (ground (arith, require-eq-parsed _ _ nonempty)) in
    parsed-transport (λ q. WithinTables q.0 × (length q.0.objects ≡ length r.objects + 1)) e5
      (entry, length-append r.objects _)

parse_objects-within :
    (slots : ℕ) (rest : List ℕ) (r : MultipleRequest) {r' : MultipleRequest}
    → parse_objects slots rest r ≡ parsed r'
    → WithinTables r
    → WithinTables r' × (length r'.objects ≤ length r.objects + slots)
unfolding parse_objects
parse_objects-within slots [] r e v =
    parsed-transport (λ q. WithinTables q × (length q.objects ≤ length r.objects + slots)) e
      (v, omega arith)
parse_objects-within zero (b ∷ rest) r e v = cc
parse_objects-within (suc slots) (b ∷ rest) r e v =
    let ((r1, behind), one, e1) = >>=-eq-parsed (parse_object (b ∷ rest) r) _ e in
    let step = parse_object-within (b ∷ rest) r one v in
    let tail = parse_objects-within slots behind r1 e1 step.0 in
    (tail.0, omega (arith, tail.1, step.1))

-- A ReadPropertyMultiple request that is parsed has one to eight objects and at most 48 references,
-- and each object's references are a non-empty part of the table of references.
pub parse_read_property_multiple-within :
    (payload : List ℕ) {r : MultipleRequest}
    → parse_read_property_multiple payload ≡ parsed r
    → WithinTables r × (1 ≤ length r.objects) × (length r.objects ≤ max_objects)
unfolding parse_read_property_multiple
parse_read_property_multiple-within payload {r} e =
    let (q, all, e1) = >>=-eq-parsed (parse_objects max_objects payload no_requests) _ e in
    let (_, nonempty, e2) =
      >>=-eq-parsed (require (not (length q.objects == 0)) missing_required_parameter) _ e1 in
    let table =
      parse_objects-within max_objects payload no_requests all
        (record { references = omega arith; entries = tt }) in
    parsed-transport
      (λ q. WithinTables q × (1 ≤ length q.objects) × (length q.objects ≤ max_objects)) e2
      (table.0, ground (arith, require-eq-parsed _ _ nonempty), table.1)
