-- ===== src/Lead/RoundTrip.antt =====
-- `read_lead` reads back what `write_lead` wrote.
use zchunk.Prelude.{
  ℕ, ◌<◌, ◌≡◌, ◌^◌, ◌∙◌, sym, ap, refl, Bool, true, false, [], ◌∷◌, ◌++◌, ◌==◌, if◌then◌else◌,
  length, append_assoc, ==_iff, ◌↔◌, arith,
}
use zchunk.Go.Error.{Context, lead_id}
use zchunk.Go.Result
use zchunk.Go.Result.{Result, ok, err, guard}
use zchunk.Go.Reader.{
  Bytes, Reads, Reads-bind, Reads-skip, Reads-lift, Reads-reading, Reads-last, read_full,
  read_full-Reads,
}
use zchunk.CompressedInt.{append_compressed_int}
use zchunk.CompressedInt.Encode.{append_compressed_int-append}
use zchunk.CompressedInt.RoundTrip.{read_compressed_int-append_compressed_int}
use zchunk.Checksum.{size}
use zchunk.Lead.{Lead, magic, detached_magic, equal, detached_of, read_lead, lead_bytes}

pub equal_iff : (left right : Bytes) → (equal left right ≡ true) ↔ (left ≡ right)
unfolding equal
equal_iff [] [] = ground arith
equal_iff [] (y ∷ ys) = ground arith
equal_iff (x ∷ xs) [] = ground arith
equal_iff (x ∷ xs) (y ∷ ys) = ground (arith, equal_iff xs ys)

abbrev pub magic_of : Bool → Bytes
magic_of d = if d then detached_magic else magic

pub length-magic_of : (d : Bool) → length (magic_of d) ≡ 5
length-magic_of true = refl
length-magic_of false = refl

magic_of-Reads : (d : Bool) → Reads (read_full 5) (magic_of d) (magic_of d)
magic_of-Reads true = read_full-Reads detached_magic refl
magic_of-Reads false = read_full-Reads magic refl

detached_of-magic_of : (d : Bool) → detached_of (magic_of d) ≡ ok d
unfolding detached_of
detached_of-magic_of true = refl
detached_of-magic_of false = refl

-- The layout of a lead, each field in front of what follows it.
abbrev pub lead_layout : Lead → Bytes
lead_layout l =
    magic_of l.detached
    ++ (append_compressed_int [] l.checksum_type
        ++ (append_compressed_int [] l.header_size ++ l.header_checksum))

pub lead_layout-Reads :
    (l : Lead)
    → l.checksum_type < 2 ^ 64
    → l.header_size < 2 ^ 64
    → size l.checksum_type ≡ ok (length l.header_checksum)
    → Reads read_lead (lead_layout l) l
unfolding read_lead
lead_layout-Reads l ht hs known = Reads-bind _ (Reads-reading lead_id (magic_of-Reads l.detached)) (
    Reads-skip _ (Reads-lift _ (detached_of-magic_of l.detached)) (
      Reads-bind _
        (Reads-reading Context.checksum_type
          (read_compressed_int-append_compressed_int l.checksum_type ht))
        (Reads-skip _ (Reads-lift _ known) (
          Reads-bind _
            (Reads-reading Context.header_size
              (read_compressed_int-append_compressed_int l.header_size hs))
            (Reads-last _
              (Reads-reading Context.header_checksum (read_full-Reads l.header_checksum refl)))))))

pub append_two :
    (dst : Bytes) (a b : ℕ) (back : Bytes)
    → append_compressed_int (append_compressed_int dst a) b ++ back
      ≡ dst ++ (append_compressed_int [] a ++ (append_compressed_int [] b ++ back))
append_two dst a b back =
    rw (append_compressed_int-append (append_compressed_int dst a) b)
      (rw (append_compressed_int-append dst a) (rw append_assoc (rw append_assoc)))

-- What a successful `WriteTo` writes, and the check that it made.
pub lead_bytes-layout :
    (l : Lead) {bs : Bytes}
    → lead_bytes l ≡ ok bs
    → (bs ≡ lead_layout l) × (size l.checksum_type ≡ ok (length l.header_checksum))
unfolding lead_bytes
lead_bytes-layout l e =
    let (n, known, built) = Result.>>=-eq-ok (size l.checksum_type) _ e in
    let (same, written) = Result.guard-eq-ok (length l.header_checksum == n) _ _ built in
    let n_eq : length l.header_checksum ≡ n = (==_iff _ _).0 same in
    (
      sym (Result.ok-injective written)
          ∙ append_two (magic_of l.detached) l.checksum_type l.header_size l.header_checksum,
      known ∙ ap ok (sym n_eq),
    )

-- `ReadLead` reads back every lead that `WriteTo` accepts, whatever follows it, and takes exactly
-- the bytes that were written, if the two integers are uint64s.
pub read_lead-lead_bytes :
    (l : Lead) (bs : Bytes)
    → l.checksum_type < 2 ^ 64
    → l.header_size < 2 ^ 64
    → lead_bytes l ≡ ok bs
    → Reads read_lead bs l
read_lead-lead_bytes l bs ht hs e =
    let (layout, known) = lead_bytes-layout l e in rw layout (lead_layout-Reads l ht hs known)
