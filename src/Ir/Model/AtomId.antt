-- ===== src/Ir/Model/AtomId.antt =====
-- model.rs, content.rs: `AtomId` and `BlobId`, 32 bytes each.
use brygge.Prelude.{◌≡◌, Bytes, length}
use brygge.Ir.Canon.Reader.{Read, raw32}
use brygge.Ir.Canon.Reads.{Reads, Reads-raw32}
use brygge.Ir.Canon.Lists.{Fits}

abbrev pub AtomId : Type 0
AtomId = Bytes

abbrev pub encode : AtomId → Bytes
encode id = id

abbrev pub decode : Read AtomId
decode = raw32

abbrev pub IsWf : AtomId → Type 0
IsWf id = length id ≡ 32

pub decode-encode_atom_id : (id : AtomId) → IsWf id → Fits (encode id) → Reads decode (encode id) id
decode-encode_atom_id id wf fits = Reads-raw32 id wf
