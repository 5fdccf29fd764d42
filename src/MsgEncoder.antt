-- ===== src/MsgEncoder.antt =====
-- libs/foundation/src/foundation/messaging/utils/msg_encoder.py: how a message is written and read
-- back in JSON and in MsgPack. The codecs of msgspec, the classes of events and Python's values are
-- parameters; Avro, the encoding of lists and logging are not modelled.
pub mod RoundTrip
pub mod Malformed
use taas_server_py.Prelude.{
  String, Bool, true, false, Option, none, some, List, [], ◌∷◌, Dict, lookup, str_eq, if◌then◌else◌,
}
use taas_server_py.Exec.{
  Exn, decoder_error, type_error, value_error, not_implemented, Result, ok, err, is_exception,
}

pub data Encoding : Type 0 where
  msgpack protobuf json : Encoding

-- what is read of a class: for each of its fields, whether its type is a datetime
pub record EventClass : Type 0 where
  pub name : String
  pub field_types : Dict Bool

-- the data of a message: a dict or another value
pub data Data (V : Type 0) : Type 0 where
  dict : Dict V → Data V
  other : V → Data V

pub data Message (V I : Type 0) : Type 0 where
  instance_of : I → Message V I
  data_only : Data V → Message V I

-- what the wire holds for JSON: `bytes`, `str` or something else
pub data Wire (B : Type 0) : Type 0 where
  as_bytes : B → Wire B
  as_str : String → Wire B
  as_other : Wire B

-- values `V`, instances of events `I` and bytes `B`; `is_json_error` is the test of
-- `except json.JSONDecodeError`
pub record Codec (V I B : Type 0) : Type 0 where
  pub is_none : V → Bool
  pub is_hashable : V → Bool
  pub as_text : V → Option String
  pub fromisoformat : String → Option V
  pub construct : EventClass → Dict V → Result I
  pub as_dict : I → Dict V
  pub pack : Data V → Result B
  pub unpack : Wire B → Result (Data V)
  pub json_encode : Data V → Result B
  pub json_decode : String → Result (Data V)
  pub decode_utf8 : B → Result String
  pub is_json_error : Exn → Bool

module _ {V I B : Type 0} (codec : Codec V I B) (registry : Dict EventClass)
    (base : EventClass) where
  abbrev or_date : V → Option V → V
  or_date v none = v
  or_date v (some date) = date

  -- a text that stands for a date is read as one
  abbrev parsed : V → Option String → V
  parsed v none = v
  parsed v (some text) = or_date v (codec.fromisoformat text)

  abbrev with_field : Option Bool → String → V → Dict V → Dict V
  with_field none name v rest = rest
  with_field (some false) name v rest = (name, v) ∷ rest
  with_field (some true) name v rest = (name, parsed v (codec.as_text v)) ∷ rest

  -- the fields that the class has
  unfoldable pub filtered : EventClass → Dict V → Dict V
  filtered cls [] = []
  filtered cls ((name, v) ∷ fields) =
      let rest = filtered cls fields in with_field (lookup name cls.field_types) name v rest

  abbrev or_base : Option EventClass → EventClass
  or_base none = base
  or_base (some cls) = cls

  -- the class of a serializer; an empty name is falsy
  abbrev class_of : Option String → EventClass
  class_of none = base
  class_of (some name) = if str_eq name "" then base else or_base (lookup name registry)

  abbrev constructed : Result I → Result (Message V I)
  constructed (ok event) = ok (instance_of event)
  constructed (err exn) = err exn

  abbrev with_serializer : Option V → Dict V → Result (Message V I)
  with_serializer none fields = ok (data_only (dict fields))
  with_serializer (some s) fields =
      if codec.is_none s
      then ok (data_only (dict fields))
      else if codec.is_hashable s
      then (let cls = class_of (codec.as_text s) in
          constructed (codec.construct cls (filtered cls fields)))
      else err type_error

  unfoldable pub reconstruct_event : Data V → Result (Message V I)
  reconstruct_event (other v) = ok (data_only (other v))
  reconstruct_event (dict fields) = with_serializer (lookup "m_serializer" fields) fields

  abbrev data_of : Message V I → Data V
  data_of (instance_of event) = dict (codec.as_dict event)
  data_of (data_only fields) = fields

  unfoldable pub encode_msg : Encoding → Message V I → Result B
  encode_msg msgpack msg = codec.pack (data_of msg)
  encode_msg protobuf msg = err not_implemented
  encode_msg json msg = codec.json_encode (data_of msg)

  abbrev unpacked : Result (Data V) → Result (Message V I)
  unpacked (ok fields) = reconstruct_event fields
  unpacked (err exn) = err exn

  -- `except Exception`, and `except json.JSONDecodeError`
  abbrev as_decoder_error : (Exn → Bool) → Result (Message V I) → Result (Message V I)
  as_decoder_error test (ok msg) = ok msg
  as_decoder_error test (err exn) = if test exn then err decoder_error else err exn

  abbrev decoded_text : Result String → Result (Message V I)
  decoded_text (ok s) = unpacked (codec.json_decode s)
  decoded_text (err exn) = err exn

  abbrev json_text : Wire B → Result (Message V I)
  json_text (as_bytes b) = decoded_text (codec.decode_utf8 b)
  json_text (as_str s) = decoded_text (ok s)
  json_text as_other = err decoder_error

  unfoldable pub decode_msg : Encoding → Wire B → Result (Message V I)
  decode_msg msgpack w = as_decoder_error is_exception (unpacked (codec.unpack w))
  decode_msg protobuf w = err not_implemented
  decode_msg json w = as_decoder_error codec.is_json_error (json_text w)
