-- ===== src/MsgEncoder/RoundTrip.antt =====
-- What is written is read back.
use taas_server_py.Prelude.{
  String, Bool-cases, inl, inr, Bool, true, false, Option, none, some, [], ◌∷◌, Dict, lookup,
  str_eq, map, ◌≡◌, refl, ap, ◌⊎◌,
}
use taas_server_py.Exec.{ok}
use taas_server_py.MsgEncoder.{
  Encoding, msgpack, protobuf, json, EventClass, dict, instance_of, as_bytes, Codec, filtered,
  with_field, reconstruct_event, encode_msg, decode_msg,
}

module _ {V I B : Type 0} (codec : Codec V I B) where
  -- a field is back to what it was when the wire has made `wire v` of it: a date is still itself, and no
  -- text, as in MsgPack, or is the text of one, as in JSON, and anything else is as it was
  abbrev Restored : Option Bool → V → V → Type 0
  Restored none v w = ⊥
  Restored (some false) v w = w ≡ v
  Restored (some true) v w =
      ((w ≡ v) × (codec.as_text w ≡ none))
      ⊎ ((text : String) × (codec.as_text w ≡ some text) × (codec.fromisoformat text ≡ some v))

  abbrev pub on_wire : (V → V) → String × V → String × V
  on_wire wire (name, v) = (name, wire v)

  unfoldable pub Carried : EventClass → (V → V) → Dict V → Type 0
  Carried cls wire [] = Unit
  Carried cls wire ((name, v) ∷ fields) =
      Restored (lookup name cls.field_types) v (wire v) × Carried cls wire fields

module _ {V I B : Type 0} (codec : Codec V I B) (registry : Dict EventClass)
    (base : EventClass) where
  with_field-Restored :
      (type : Option Bool) (name : String) (v w : V) (rest : Dict V)
      → Restored codec type v w
      → with_field codec registry base type name w rest ≡ (name, v) ∷ rest
  with_field-Restored none name v w rest same = elim same [ ]
  with_field-Restored (some false) name v w rest same = ap (λ x. (name, x) ∷ rest) same
  with_field-Restored (some true) name v w rest (inl (same, no_text)) = rw (no_text, same) refl
  with_field-Restored (some true) name v w rest (inr (text, is_text, is_date)) =
      rw (is_text, is_date) refl

  filtered-wire :
      (cls : EventClass) (wire : V → V) (fields : Dict V)
      → Carried codec cls wire fields
      → filtered codec registry base cls (map (on_wire codec wire) fields) ≡ fields
  unfolding Carried filtered
  filtered-wire cls wire [] carried = refl
  filtered-wire cls wire ((name, v) ∷ fields) (restored, carried) =
      rw (filtered-wire cls wire fields carried)
        (with_field-Restored (lookup name cls.field_types) name v (wire v) fields restored)

  lookup-on_wire :
      (wire : V → V) (key : String) (fields : Dict V) (v : V)
      → lookup key fields ≡ some v
      → lookup key (map (on_wire codec wire) fields) ≡ some (wire v)
  unfolding lookup
  lookup-on_wire wire key [] v found = cc found
  lookup-on_wire wire key ((name, w) ∷ fields) v found = elim (Bool-cases (str_eq name key)) [
    | inl here ↦ rw here (let same : some w ≡ some v = rw here at found in cc same)
    | inr elsewhere ↦ rw elsewhere (lookup-on_wire wire key fields v (rw elsewhere at found))
  ]

  -- the event is read back as the class that its serializer is registered for
  pub record Registered (wire : V → V) (cls : EventClass) (event : I) : Type 0 where
    pub name : String
    pub serializer : V
    pub present : lookup "m_serializer" (codec.as_dict event) ≡ some serializer
    pub not_none : codec.is_none (wire serializer) ≡ false
    pub hashable : codec.is_hashable (wire serializer) ≡ true
    pub is_text : codec.as_text (wire serializer) ≡ some name
    pub not_empty : str_eq name "" ≡ false
    pub registered : lookup name registry ≡ some cls
    pub carried : Carried codec cls wire (codec.as_dict event)
    pub constructs : codec.construct cls (codec.as_dict event) ≡ ok event

  reconstruct-wire :
      (wire : V → V) (cls : EventClass) (event : I)
      → Registered wire cls event
      → reconstruct_event codec registry base
          (dict (map (on_wire codec wire) (codec.as_dict event)))
        ≡ ok (instance_of event)
  unfolding reconstruct_event
  reconstruct-wire wire cls event r =
      rw
        (
          lookup-on_wire wire "m_serializer" (codec.as_dict event) r.serializer r.present,
          r.not_none,
          r.hashable,
          r.is_text,
          r.not_empty,
          r.registered,
          filtered-wire cls wire (codec.as_dict event) r.carried,
          r.constructs,
        )
        refl

  -- what the codec of an encoding promises of a dict that it writes
  unfoldable pub WireLaw : Encoding → (V → V) → Dict V → Type 0
  WireLaw msgpack wire fields =
      (b : B)
      → codec.pack (dict fields) ≡ ok b
      → codec.unpack (as_bytes b) ≡ ok (dict (map (on_wire codec wire) fields))
  WireLaw protobuf wire fields = Unit
  WireLaw json wire fields =
      (b : B)
      → codec.json_encode (dict fields) ≡ ok b
      → (s : String) × (codec.decode_utf8 b ≡ ok s)
        × (codec.json_decode s ≡ ok (dict (map (on_wire codec wire) fields)))

  -- In either encoding: an event whose serializer is registered for its class, and whose fields the wire
  -- of this encoding carries, is read back as the event that was written.
  pub decode_msg-encode_msg :
      (wire : V → V) (enc : Encoding) (cls : EventClass) (event : I) (b : B)
      → WireLaw enc wire (codec.as_dict event)
      → Registered wire cls event
      → encode_msg codec registry base enc (instance_of event) ≡ ok b
      → decode_msg codec registry base enc (as_bytes b) ≡ ok (instance_of event)
  unfolding encode_msg decode_msg WireLaw
  decode_msg-encode_msg wire msgpack cls event b law r written =
      rw (law b written, reconstruct-wire wire cls event r) refl
  decode_msg-encode_msg wire protobuf cls event b law r written = cc written
  decode_msg-encode_msg wire json cls event b law r written =
      let (s, decodes, reads) = law b written in
      rw (decodes, reads, reconstruct-wire wire cls event r) refl
