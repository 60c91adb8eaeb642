-- ===== src/Server/Classify.antt =====
-- crates/corpus-core/src/classify.rs: the class of a file by its first bytes.
pub mod Signature
use corpus.Prelude.{
  ℕ, ◌+◌, ◌*◌, ◌≡◌, ◌≢◌, ◌≤◌, refl, arith, Bool, true, false, ◌&&◌, ◌||◌, ◌⊎◌, inl, inr, Bool-cases,
  Option, some, none, String, List, [], ◌∷◌, ◌++◌, length, take, drop, leb, ◌==◌, if◌then◌else◌,
  take-append,
}
use corpus.Agent.Spool.{Bytes, from_le_bytes}
use corpus.Server.Cas.{text_eq}

pub data ArtifactClass : Type 0 where
  pe elf mach_o mach_o_fat script unknown : ArtifactClass

unfoldable pub as_str : ArtifactClass → String
as_str pe = "pe"
as_str elf = "elf"
as_str mach_o = "macho"
as_str mach_o_fat = "macho_fat"
as_str script = "script"
as_str unknown = "unknown"

-- The four bytes of a magic number that is matched on its own.
unfoldable pub magic_class : Bytes → Option ArtifactClass
magic_class m =
    if text_eq m (127 ∷ 69 ∷ 76 ∷ 70 ∷ [])
    then some elf
    else if text_eq m (254 ∷ 237 ∷ 250 ∷ 206 ∷ [])
        || text_eq m (254 ∷ 237 ∷ 250 ∷ 207 ∷ [])
        || text_eq m (206 ∷ 250 ∷ 237 ∷ 254 ∷ [])
        || text_eq m (207 ∷ 250 ∷ 237 ∷ 254 ∷ [])
    then some mach_o
    else if text_eq m (202 ∷ 254 ∷ 186 ∷ 190 ∷ []) || text_eq m (190 ∷ 186 ∷ 254 ∷ 202 ∷ [])
    then some mach_o_fat
    else none

-- `bytes.starts_with(prefix)`
abbrev pub starts_with : Bytes → Bytes → Bool
starts_with prefix bytes = text_eq (take (length prefix) bytes) prefix

-- The field at 0x3c.
unfoldable pub e_lfanew : Bytes → ℕ
e_lfanew bytes = from_le_bytes (take 4 (drop 60 bytes))

-- Both tests of the PE branch, with the bounds before each slice.
unfoldable pub is_pe : Bytes → Bool
unfolding e_lfanew
is_pe bytes =
    leb 64 (length bytes)
    && starts_with (77 ∷ 90 ∷ []) bytes
    && leb (e_lfanew bytes + 4) (length bytes)
    && text_eq (take 4 (drop (e_lfanew bytes) bytes)) (80 ∷ 69 ∷ 0 ∷ 0 ∷ [])

unfoldable pub classify_rest : Bytes → ArtifactClass
unfolding is_pe
classify_rest bytes =
    if is_pe bytes then pe else if starts_with (35 ∷ 33 ∷ []) bytes then script else unknown

unfoldable pub classify : Bytes → ArtifactClass
unfolding magic_class classify_rest
classify bytes = elim (if leb 4 (length bytes) then magic_class (take 4 bytes) else none) [
  | some class ↦ class
  | none ↦ classify_rest bytes
]
