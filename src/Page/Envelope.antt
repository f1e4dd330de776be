-- ===== src/Page/Envelope.antt =====
-- The envelope in which `handleSendFile` of frontend/app/page.tsx puts a file and `handleDownloadFile`
-- finds it: [u32be headerLen][header JSON][file bytes].
pub mod RoundTrip
use null_key.Base.{
  ℕ, zero, suc, ◌+◌, ◌*◌, ◌/◌, ◌%◌, List, [], ◌∷◌, ◌++◌, Option, none, some, ltb, length,
  if◌then◌else◌,
}
use null_key.Value.{Value, text, truthy}
use null_key.Crypto.{Bytes, compute_file_hash}
use null_key.Page.{Browser, FileHeader, SelectedFile, or_else}

unfoldable pub take : ℕ → Bytes → Bytes
take zero bytes = []
take (suc n) [] = []
take (suc n) (b ∷ bytes) = b ∷ take n bytes

unfoldable pub drop : ℕ → Bytes → Bytes
drop zero bytes = bytes
drop (suc n) [] = []
drop (suc n) (b ∷ bytes) = drop n bytes

-- setUint32(0, n, false)
unfoldable pub u32be : ℕ → Bytes
u32be n = (n / 16777216) % 256 ∷ (n / 65536) % 256 ∷ (n / 256) % 256 ∷ n % 256 ∷ []

-- getUint32(0, false), which throws on fewer than four bytes.
unfoldable pub get_u32be : Bytes → Option ℕ
get_u32be (a ∷ b ∷ c ∷ d ∷ rest) = some (a * 16777216 + b * 65536 + c * 256 + d)
get_u32be _ = none

-- file.type || 'application/octet-stream'
abbrev pub octet_stream : Value
octet_stream = text "application/octet-stream"

unfoldable pub header_of : Browser → SelectedFile → FileHeader
header_of b f = record {
  file_name = f.name;
  file_type = or_else f.mime octet_stream;
  file_hash = text (compute_file_hash b.crypto f.bytes);
}

unfoldable pub make_envelope : Browser → SelectedFile → Bytes
unfolding header_of u32be
make_envelope b f =
    let header = b.write_header (header_of b f) in u32be (length header) ++ header ++ f.bytes

-- The parts of an envelope whose header has length `n`.
unfoldable pub open_at : Browser → ℕ → Bytes → Option (FileHeader × Bytes)
unfolding take drop
open_at b n envelope =
    if ltb (length envelope) (4 + n)
    then none
    else elim (b.read_header (take n (drop 4 envelope))) as (λ _. Option (FileHeader × Bytes)) [
      | none ↦ none
      | some header ↦ some (header, drop (4 + n) envelope)
    ]

unfoldable pub open_envelope : Browser → Bytes → Option (FileHeader × Bytes)
unfolding get_u32be open_at
open_envelope b envelope = elim (get_u32be envelope) as (λ _. Option (FileHeader × Bytes)) [
  | none ↦ none
  | some n ↦ open_at b n envelope
]
