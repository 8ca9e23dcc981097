-- ===== src/Ir/Content.antt =====
-- content.rs: the content store in memory, a map from the SHA-256 of a blob to its bytes in the order of the keys.
-- The hash is a parameter. The stores that are backed by a file are not modelled.
use brygge.Prelude.{Bool, true, false, List, [], ◌∷◌, Option, none, some, Bytes, if◌then◌else◌, map}
use brygge.Prelude.Utf8.{text_eq, text_ltb}

abbrev pub BlobId : Type 0
BlobId = Bytes

abbrev pub ContentStore : Type 0
ContentStore = List (BlobId × Bytes)

-- `blobs.entry(id).or_insert(bytes)`
unfoldable pub or_insert : BlobId → Bytes → ContentStore → ContentStore
or_insert id bytes [] = (id, bytes) ∷ []
or_insert id bytes ((k, v) ∷ blobs) =
    let later = (k, v) ∷ or_insert id bytes blobs in
    if text_eq id k
    then (k, v) ∷ blobs
    else if text_ltb id k
    then (id, bytes) ∷ (k, v) ∷ blobs
    else later

-- ContentStore::insert
unfoldable pub insert : (Bytes → Bytes) → Bytes → ContentStore → BlobId × ContentStore
insert sha256 bytes blobs = (sha256 bytes, or_insert (sha256 bytes) bytes blobs)

-- ContentStore::get
unfoldable pub get : BlobId → ContentStore → Option Bytes
get id [] = none
get id ((k, v) ∷ blobs) = let later = get id blobs in if text_eq id k then some v else later

-- ContentStore::contains
unfoldable pub contains : BlobId → ContentStore → Bool
contains id [] = false
contains id ((k, v) ∷ blobs) = let later = contains id blobs in if text_eq id k then true else later

-- ContentStore::retain
unfoldable pub retain : (BlobId → Bool) → ContentStore → ContentStore
retain keep [] = []
retain keep ((k, v) ∷ blobs) =
    let rest = retain keep blobs in if keep k then (k, v) ∷ rest else rest

-- ContentStore::ids
abbrev pub ids : ContentStore → List BlobId
ids blobs = map (λ b. b.0) blobs
