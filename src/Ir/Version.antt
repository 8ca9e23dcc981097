-- ===== src/Ir/Version.antt =====
-- crates/brygge-ir/src/version.rs: the read gate for contract versions.
use brygge.Prelude.{Bool, false, ◌&&◌, ◌||◌, List, [], ◌∷◌, ◌==◌, if◌then◌else◌, Result, ok, err}
use brygge.Ir.Error.{Error, ContractVersion, unsupported_contract}

abbrev pub current : ContractVersion
current = record { major = 0; minor = 3; patch = 0 }

abbrev pub readable : List ContractVersion
readable = (record { major = 0; minor = 2; patch = 0 }) ∷ current ∷ []

-- `READABLE.iter().any(|r| r.minor == self.minor)`
any_minor : List ContractVersion → ContractVersion → Bool
any_minor [] v = false
any_minor (r ∷ rs) v = r.minor == v.minor || any_minor rs v

unfoldable pub accepts : ContractVersion → Bool
unfolding any_minor
accepts v =
    if current.major == 0 then v.major == 0 && any_minor readable v else v.major == current.major

unfoldable pub ensure_readable : ContractVersion → Result Error (Unit {0})
unfolding accepts
ensure_readable found = if accepts found then ok tt else err (unsupported_contract found current)
