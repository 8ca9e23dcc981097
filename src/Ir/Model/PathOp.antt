-- ===== src/Ir/Model/PathOp.antt =====
-- model.rs: `PathOp`, one literal path operation of an atom.
use brygge.Prelude.{ℕ, ◌+◌, ◌<◌, ◌≤◌, ◌^◌, ◌≡◌, refl, true, arith, ◌==◌, ltb, if◌then◌else◌}
use brygge.Prelude.{[], ◌∷◌, ◌++◌, Option, none, some, Bytes, length}
use brygge.Prelude.Utf8.{is_utf8}
use brygge.Ir.Error.{Error, non_canonical}
use brygge.Ir.Canon.Writer.{
  tag, field_bytes, fields_bytes, put_uvarint, field, in_turn, optional, record_bytes,
  uvarint_value,
}
use brygge.Ir.Canon.Reader.{
  Read, Handler, ◌>>=◌, ◌>>◌, pure, fail, ensure, required, recognized, declined, text, raw32,
  uvarint, record_fields,
}
use brygge.Ir.Canon.Varint.{uvarint-uvarint_value, uvarint_value-nonempty}
use brygge.Ir.Canon.Reads.{
  Reads, Reads-bind, Reads-then, Reads-last, Reads-pure, Reads-ensure, Reads-text, Reads-raw32,
}
use brygge.Ir.Canon.Lists.{Fits}
use brygge.Ir.Canon.Records.{done, Handles-field, Handles-optional, record_fields-record_bytes}
use brygge.Ir.Status.EpistemicStatus
use brygge.Ir.Status.EpistemicStatus.{EpistemicStatus}
use brygge.Prelude.{length-append, lt→ltb}

pub data PathOp : Type 0 where
  add : Bytes → Bytes → ℕ → EpistemicStatus → PathOp
  modify : Bytes → Bytes → ℕ → EpistemicStatus → PathOp
  delete : Bytes → EpistemicStatus → PathOp
  replace : Bytes → Bytes → ℕ → EpistemicStatus → PathOp

unfoldable pub path : PathOp → Bytes
path (add p _ _ _) = p
path (modify p _ _ _) = p
path (delete p _) = p
path (replace p _ _ _) = p

-- PathOp::status
unfoldable pub op_status : PathOp → EpistemicStatus
op_status (add _ _ _ status) = status
op_status (modify _ _ _ status) = status
op_status (delete _ status) = status
op_status (replace _ _ _ status) = status

-- The blob and the mode, where the operation has them.
unfoldable pub blob_of : PathOp → Option Bytes
blob_of (add _ b _ _) = some b
blob_of (modify _ b _ _) = some b
blob_of (delete _ _) = none
blob_of (replace _ b _ _) = some b

unfoldable pub mode_of : PathOp → Option ℕ
mode_of (add _ _ m _) = some m
mode_of (modify _ _ m _) = some m
mode_of (delete _ _) = none
mode_of (replace _ _ m _) = some m

-- The record behind the variant's number.
unfoldable pub fields_of : Bytes → Option Bytes → Option ℕ → EpistemicStatus → Bytes
fields_of p blob mode status = record_bytes (
    in_turn (
      field 1 true p
      ∷ optional (λ x. field 2 true x) blob
      ∷ optional (λ x. field 3 true (uvarint_value x)) mode
      ∷ field 4 true (EpistemicStatus.encode status)
      ∷ []))

unfoldable pub encode : PathOp → Bytes
encode (add p blob mode status) = uvarint_value 0 ++ fields_of p (some blob) (some mode) status
encode (modify p blob mode status) = uvarint_value 1 ++ fields_of p (some blob) (some mode) status
encode (delete p status) = uvarint_value 2 ++ fields_of p none none status
encode (replace p blob mode status) = uvarint_value 3 ++ fields_of p (some blob) (some mode) status

-- `u32::try_from(r.uvarint()?)`
unfoldable pub read_u32 : Read ℕ
read_u32 = do v ← uvarint; ensure (ltb v (2 ^ 32)) (Error.decode "mode out of range"); pure v

record Vars : Type 0 where
  path : Option Bytes
  blob : Option Bytes
  mode : Option ℕ
  status : Option EpistemicStatus

abbrev start : Vars
start = record { path = none; blob = none; mode = none; status = none }

handle : Handler Vars
handle s id len =
    if id == 1
    then (do x ← text len; recognized (record s { path = some x }))
    else if id == 2
    then (do x ← raw32; recognized (record s { blob = some x }))
    else if id == 3
    then (do x ← read_u32; recognized (record s { mode = some x }))
    else if id == 4
    then (do x ← EpistemicStatus.decode; recognized (record s { status = some x }))
    else declined s

-- `need_blob_mode(what)`, and the operation made of them
with_blob_mode : (Bytes → ℕ → PathOp) → Option Bytes → Option ℕ → Read PathOp
with_blob_mode make blob mode = do
  b ← required blob (non_canonical "PathOp missing field 2 (blob)")
  m ← required mode (non_canonical "PathOp missing field 3 (mode)")
  pure (make b m)

by_variant : ℕ → Bytes → Option Bytes → Option ℕ → EpistemicStatus → Read PathOp
by_variant v p blob mode status =
    if v == 0
    then with_blob_mode (λ b m. add p b m status) blob mode
    else if v == 1
    then with_blob_mode (λ b m. modify p b m status) blob mode
    else if v == 2
    then pure (delete p status)
    else if v == 3
    then with_blob_mode (λ b m. replace p b m status) blob mode
    else fail (Error.decode "unknown PathOp variant")

unfoldable pub decode : Read PathOp
unfolding handle by_variant with_blob_mode
decode = do
  variant ← uvarint
  s ← record_fields "PathOp" handle start
  p ← required s.path (non_canonical "PathOp missing field 1 (path)")
  status ← required s.status (non_canonical "PathOp missing field 4 (status)")
  by_variant variant p s.blob s.mode status

abbrev pub IsWfParts : Bytes → Option Bytes → Option ℕ → EpistemicStatus → Type 0
IsWfParts p blob mode status =
    (is_utf8 p ≡ true)
    × ((b : Bytes) → blob ≡ some b → length b ≡ 32)
    × ((m : ℕ) → mode ≡ some m → m < 2 ^ 32)
    × EpistemicStatus.IsWf status

-- The path is a text, a blob has 32 bytes, a mode is a u32, and the status is well formed.
pub record IsWf (op : PathOp) : Type 0 where
  pub path : is_utf8 (path op) ≡ true
  pub blob : (b : Bytes) → blob_of op ≡ some b → length b ≡ 32
  pub mode : (m : ℕ) → mode_of op ≡ some m → m < 2 ^ 32
  pub status : EpistemicStatus.IsWf (op_status op)

read_u32_lem : (m : ℕ) → m < 2 ^ 32 → Reads read_u32 (uvarint_value m) m
unfolding read_u32
read_u32_lem m h = Reads-last uvarint _ (uvarint-uvarint_value m (omega arith)) (
    Reads-then (ensure (ltb m (2 ^ 32)) _) _ (Reads-ensure _ _ (lt→ltb m (2 ^ 32) h))
      (Reads-pure m))

-- Under any variant the fields are read into the variables, those that the variant does not have too.
decode_fields :
    (v : ℕ) (p : Bytes) (blob : Option Bytes) (mode : Option ℕ) (status : EpistemicStatus)
    (op : PathOp)
    → v < 2 ^ 64
    → IsWfParts p blob mode status
    → Fits (uvarint_value v ++ fields_of p blob mode status)
    → Reads (by_variant v p blob mode status) [] op
    → Reads decode (uvarint_value v ++ fields_of p blob mode status) op
unfolding decode fields_of
decode_fields v p blob mode status op hv (hp, hb, hm, hs) fits r =
    Reads-bind uvarint _ (uvarint-uvarint_value v hv) (
      Reads-last (record_fields "PathOp" handle start) _
        (record_fields-record_bytes "PathOp" handle
          (Handles-field handle 0 1 p (omega arith) (omega arith)
            (λ _. Reads-last (text _) _ (Reads-text p hp) (Reads-pure _))
            (Handles-optional handle 2 2 blob (λ x. x)
              (λ x. record { path = some p; blob = x; mode = none; status = none }) (omega arith)
              (omega arith) (λ b q _. Reads-last raw32 _ (Reads-raw32 b (hb b q)) (Reads-pure _))
              (Handles-optional handle 3 3 mode (λ x. uvarint_value x)
                (λ x. record { path = some p; blob = blob; mode = x; status = none }) (omega arith)
                (omega arith)
                (λ m q _. Reads-last read_u32 _ (read_u32_lem m (hm m q)) (Reads-pure _))
                (Handles-field handle 4 4 (EpistemicStatus.encode status) (omega arith)
                  (omega arith)
                  (λ f.
                    Reads-last EpistemicStatus.decode _
                      (EpistemicStatus.decode-encode_epistemic_status status hs f) (Reads-pure _))
                  (done 5 _)))))
          (omega (arith, length-append (uvarint_value v) (fields_of p blob mode status))))
        r)

-- Every well-formed operation is read back from what `encode` writes for it, if that is shorter than 2 ^ 64
-- bytes; no byte more is taken.
pub decode-encode_path_op : (op : PathOp) → IsWf op → Fits (encode op) → Reads decode (encode op) op
unfolding encode by_variant with_blob_mode path op_status blob_of mode_of
decode-encode_path_op (add p b m s) wf fits =
    decode_fields 0 p (some b) (some m) s _ (omega arith) (wf.path, wf.blob, wf.mode, wf.status)
      fits (Reads-pure (add p b m s))
decode-encode_path_op (modify p b m s) wf fits =
    decode_fields 1 p (some b) (some m) s _ (omega arith) (wf.path, wf.blob, wf.mode, wf.status)
      fits (Reads-pure (modify p b m s))
decode-encode_path_op (delete p s) wf fits =
    decode_fields 2 p none none s _ (omega arith) (wf.path, wf.blob, wf.mode, wf.status) fits
      (Reads-pure (delete p s))
decode-encode_path_op (replace p b m s) wf fits =
    decode_fields 3 p (some b) (some m) s _ (omega arith) (wf.path, wf.blob, wf.mode, wf.status)
      fits (Reads-pure (replace p b m s))

one_byte : (length (uvarint_value 2) ≡ 1) × (length (uvarint_value 4) ≡ 1)
unfolding uvarint_value put_uvarint
one_byte = (refl, refl)

length-two_fields :
    (a d : ℕ × Bytes)
    → length (record_bytes (a ∷ d ∷ [])) ≡ 1 + (length (field_bytes a) + length (field_bytes d))
unfolding record_bytes fields_bytes
length-two_fields a d = omega (
  arith,
  one_byte.0,
  length-append (uvarint_value 2) (field_bytes a ++ (field_bytes d ++ [])),
  length-append (field_bytes a) (field_bytes d ++ []),
  length-append (field_bytes d) [],
)

length-four_fields :
    (a b c d : ℕ × Bytes)
    → length (record_bytes (a ∷ b ∷ c ∷ d ∷ []))
      ≡ 1
        + (length (field_bytes a)
            + length (field_bytes b)
            + length (field_bytes c)
            + length (field_bytes d))
unfolding record_bytes fields_bytes
length-four_fields a b c d = omega (
  arith,
  one_byte.1,
  length-append (uvarint_value 4)
      (field_bytes a ++ (field_bytes b ++ (field_bytes c ++ (field_bytes d ++ [])))),
  length-append (field_bytes a) (field_bytes b ++ (field_bytes c ++ (field_bytes d ++ []))),
  length-append (field_bytes b) (field_bytes c ++ (field_bytes d ++ [])),
  length-append (field_bytes c) (field_bytes d ++ []),
  length-append (field_bytes d) [],
)

field_nonempty : (f : ℕ × Bytes) → 1 ≤ length (field_bytes f)
unfolding field_bytes
field_nonempty (t, v) = omega (
  arith,
  uvarint_value-nonempty t,
  length-append (uvarint_value t) (uvarint_value (length v) ++ v),
)

shorter :
    (p b : Bytes) (m : ℕ) (s : EpistemicStatus)
    → length (fields_of p none none s) < length (fields_of p (some b) (some m) s)
unfolding fields_of field
shorter p b m s =
    let path_field : ℕ × Bytes = (tag 1 true, p) in
    let status_field : ℕ × Bytes = (tag 4 true, EpistemicStatus.encode s) in
    omega (
      arith,
      length-two_fields path_field status_field,
      length-four_fields path_field (tag 2 true, b) (tag 3 true, uvarint_value m) status_field,
      field_nonempty (tag 2 true, b),
    )

-- A deletion is also read from a record that carries a blob and a mode beside the path and the status, if
-- these are well formed and the record is shorter than 2 ^ 64 bytes: the reader drops them, and the record is
-- longer than what `encode` writes for the deletion.
pub decode_delete_extra :
    (p b : Bytes) (m : ℕ) (s : EpistemicStatus)
    → IsWfParts p (some b) (some m) s
    → Fits (uvarint_value 2 ++ fields_of p (some b) (some m) s)
    → Reads decode (uvarint_value 2 ++ fields_of p (some b) (some m) s) (delete p s)
      × (length (encode (delete p s)) < length (uvarint_value 2 ++ fields_of p (some b) (some m) s))
decode_delete_extra p b m s wf fits = (
  decode_fields 2 p (some b) (some m) s _ (omega arith) wf fits
      (unfold by_variant in Reads-pure (delete p s)),
  unfold encode in
      omega (
        arith,
        shorter p b m s,
        length-append (uvarint_value 2) (fields_of p none none s),
        length-append (uvarint_value 2) (fields_of p (some b) (some m) s),
      ),
)
