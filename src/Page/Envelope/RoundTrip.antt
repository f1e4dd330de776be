-- ===== src/Page/Envelope/RoundTrip.antt =====
-- A file comes out of its envelope as it went in.
use null_key.Base.{
  ℕ, suc, ◌≡◌, refl, ap, ◌∙◌, ◌+◌, ◌*◌, ◌/◌, ◌%◌, ◌<◌, false, [], ◌∷◌, ◌++◌, some, ltb, length,
  arith, if◌then◌else◌,
}
use null_key.Crypto.{Bytes}
use null_key.Page.{Browser, FileHeader, SelectedFile}
use null_key.Page.Envelope.{
  take, drop, u32be, get_u32be, open_at, header_of, make_envelope, open_envelope,
}

take-append : (a b : Bytes) → take (length a) (a ++ b) ≡ a
unfolding take
take-append [] b = refl
take-append (x ∷ a) b = ap (λ t. x ∷ t) (take-append a b)

drop-append : (a b : Bytes) → drop (length a) (a ++ b) ≡ b
unfolding drop
drop-append [] b = refl
drop-append (x ∷ a) b = drop-append a b

length_append : (a b : Bytes) → length (a ++ b) ≡ length a + length b
length_append [] b = ground arith
length_append (x ∷ a) b = ground (arith, length_append a b)

u32_value :
    (n : ℕ)
    → n < 4294967296
    → (n / 16777216) % 256 * 16777216 + (n / 65536) % 256 * 65536 + (n / 256) % 256 * 256 + n % 256
      ≡ n
u32_value n h = omega arith

drop_four : (w x y z n : ℕ) (rest : Bytes) → drop (4 + n) (w ∷ x ∷ y ∷ z ∷ rest) ≡ drop n rest
unfolding drop
drop_four w x y z n rest =
    let e : 4 + n ≡ suc (suc (suc (suc n))) = omega arith in
    ap (λ k. drop k (w ∷ x ∷ y ∷ z ∷ rest)) e

long_enough : (n m : ℕ) → ltb (suc (suc (suc (suc (n + m))))) (4 + n) ≡ false
long_enough n m = ground arith

open_at_lem :
    (b : Browser) (w x y z : ℕ) (header file : Bytes) (found : FileHeader)
    → b.read_header header ≡ some found
    → open_at b (length header) (w ∷ x ∷ y ∷ z ∷ header ++ file) ≡ some (found, file)
unfolding open_at drop
open_at_lem b w x y z header file found h =
    rw
      (
        length_append header file,
        long_enough (length header) (length file),
        take-append header file,
        h,
        drop_four w x y z (length header) (header ++ file),
        drop-append header file,
        if◌then◌else◌,
      )
      refl

-- A file whose header has fewer than 2^32 bytes: its envelope opens to the header and to the very
-- bytes of the file. Reading the header as JSON gives what was written.
pub open_envelope-make_envelope :
    (b : Browser) (f : SelectedFile)
    → b.read_header (b.write_header (header_of b f)) ≡ some (header_of b f)
    → length (b.write_header (header_of b f)) < 4294967296
    → open_envelope b (make_envelope b f) ≡ some (header_of b f, f.bytes)
unfolding open_envelope make_envelope u32be get_u32be
open_envelope-make_envelope b f reads h =
    let header = b.write_header (header_of b f) in
    let n = length header in
    ap (λ k. open_at b k (u32be n ++ header ++ f.bytes)) (u32_value n h)
    ∙ open_at_lem b _ _ _ _ header f.bytes (header_of b f) reads
