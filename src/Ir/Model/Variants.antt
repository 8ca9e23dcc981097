-- ===== src/Ir/Model/Variants.antt =====
-- model.rs, status.rs: what the encodings of enums share. An enum is the number of its variant, and then
-- a record, which is empty but for a variant that carries a label.
use brygge.Prelude.{
  ℕ, ◌<◌, ◌^◌, ◌≡◌, true, ◌==◌, if◌then◌else◌, arith, [], ◌++◌, Option, none, some, Bytes, String,
}
use brygge.Prelude.Utf8.{is_utf8}
use brygge.Ir.Error.{Error}
use brygge.Ir.Canon.Writer.{field, record_bytes, uvarint_value, put_uvarint, fields_bytes}
use brygge.Ir.Canon.Reader.{
  Read, Handler, ◌>>=◌, required, recognized, declined, text, uvarint, record_fields,
}
use brygge.Ir.Canon.Reads.{Reads, Reads-bind, Reads-last, Reads-pure, Reads-text}
use brygge.Ir.Canon.Varint.{uvarint-uvarint_value}
use brygge.Ir.Canon.Lists.{Fits}
use brygge.Ir.Canon.Records.{done, more, record_fields-record_bytes}

-- `|_, _, _| Ok(false)`
abbrev pub decline : Handler (Unit {0})
decline s id len = declined s

-- `if id == 1 { label = Some(r.text(len)?); Ok(true) } else { Ok(false) }`
unfoldable pub label_handle : Handler (Option Bytes)
label_handle s id len = if id == 1 then (do x ← text len; recognized (some x)) else declined s

empty-Fits : Fits (record_bytes [])
unfolding record_bytes fields_bytes uvarint_value put_uvarint
empty-Fits = omega arith

pub Reads-empty :
    {B : Type 0} (name : String) (f : Unit {0} → Read B) {b : B}
    → Reads (f tt) [] b
    → Reads (record_fields name decline tt >>= f) (record_bytes []) b
Reads-empty name f r =
    Reads-last (record_fields name decline tt) f
      (record_fields-record_bytes name decline (done 0 tt) empty-Fits) r

pub Reads-plain :
    {B : Type 0} (v : ℕ) (f : ℕ → Read B) {b : B}
    → v < 2 ^ 64
    → Reads (f v) (record_bytes []) b
    → Reads (uvarint >>= f) (uvarint_value v ++ record_bytes []) b
Reads-plain v f h r = Reads-bind uvarint f (uvarint-uvarint_value v h) r

pub Reads-label :
    {B : Type 0} (name : String) (e : Error) (f : Bytes → Read B) (label : Bytes) {b : B}
    → is_utf8 label ≡ true
    → Fits (record_bytes (field 1 true label))
    → Reads (f label) [] b
    → Reads
        (record_fields name label_handle none >>= λ s. (required s e >>= f))
        (record_bytes (field 1 true label))
        b
unfolding label_handle field
Reads-label name e f label h fits r =
    Reads-last (record_fields name label_handle none) _
      (record_fields-record_bytes name label_handle
        (more 1 (omega arith) (omega arith)
          (λ _. Reads-last (text _) _ (Reads-text label h) (Reads-pure _)) (done 2 (some label)))
        fits)
      r
