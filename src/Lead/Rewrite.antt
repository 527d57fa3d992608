-- ===== src/Lead/Rewrite.antt =====
-- What `ReadLead` can return, whatever its input, and what `WriteTo` makes of it.
use zchunk.Prelude.{
  ◌+◌, ◌≤◌, ◌<◌, ◌≡◌, ◌∙◌, sym, ap, refl, ◌^◌, [], ◌++◌, ==_iff, length, length-append, arith,
}
use zchunk.Go.Error.{Context, lead_id}
use zchunk.Go.Result.{ok, guard_goes}
use zchunk.Go.Reader.{Bytes, Ending, Reads}
use zchunk.Go.Yields.{
  Yields, Yields-pure, Yields-lift, Yields-reading, Yields-bind, read_full-Yields,
  read_compressed_int-Yields,
}
use zchunk.Go.Spends.{
  Spends, Spends-pure, Spends-lift, Spends-reading, Spends-bind, read_full-Spends,
  read_compressed_int-Spends,
}
use zchunk.Go.Splits.{
  Splits, Splits-pure, Splits-lift, Splits-reading, Splits-bind, read_full-Splits,
  read_compressed_int-Splits,
}
use zchunk.CompressedInt.{append_compressed_int}
use zchunk.Checksum.{size}
use zchunk.Lead.{Lead, detached_of, read_lead, lead_bytes}
use zchunk.Lead.RoundTrip.{
  lead_layout, magic_of, length-magic_of, lead_bytes-layout, read_lead-lead_bytes,
}

-- A lead with two uint64s and a digest of the size of its checksum type.
pub record IsLead (l : Lead) : Type 0 where
  pub type_fits : l.checksum_type < 2 ^ 64
  pub size_fits : l.header_size < 2 ^ 64
  pub digest_size : size l.checksum_type ≡ ok (length l.header_checksum)

pub read_lead-IsLead : Yields read_lead IsLead
unfolding read_lead
read_lead-IsLead = Yields-bind _ (Yields-reading _ (read_full-Yields _)) λ id _.
    Yields-bind _ (Yields-lift {P = λ d. detached_of id ≡ ok d} (detached_of id) λ d known. known)
      λ d _. Yields-bind _ (Yields-reading _ read_compressed_int-Yields) λ t type_fits.
        Yields-bind _ (Yields-lift {P = λ n. size t ≡ ok n} (size t) λ n known. known) λ n known.
          Yields-bind _ (Yields-reading _ read_compressed_int-Yields) λ hs size_fits.
            Yields-bind _ (Yields-reading _ (read_full-Yields n)) λ digest long.
              Yields-pure _ (record {
                type_fits = type_fits;
                size_fits = size_fits;
                digest_size = known ∙ ap ok (sym long);
              })

lead_bytes_total : (l : Lead) → IsLead l → (bs : Bytes) × (lead_bytes l ≡ ok bs)
unfolding lead_bytes
lead_bytes_total l w =
    let matches = (==_iff (length l.header_checksum) (length l.header_checksum)).1 refl in
    (
      append_compressed_int (append_compressed_int (magic_of l.detached) l.checksum_type)
            l.header_size
          ++ l.header_checksum,
      rw w.digest_size (guard_goes _ _ _ matches),
    )

-- What `ReadLead` takes is at least as long as the shortest coding of the lead.
pub read_lead-Spends : Spends 0 read_lead λ l count. length (lead_layout l) ≤ count
unfolding read_lead
read_lead-Spends =
    Spends-bind 0 _ (Spends-reading 0 lead_id (read_full-Spends 0 5)) λ id n₁ id_taken.
      Spends-lift n₁ (detached_of id) _ λ d known.
        Spends-bind n₁ _ (Spends-reading n₁ Context.checksum_type (read_compressed_int-Spends n₁))
          λ t n₂ type_taken. Spends-lift n₂ (size t) _ λ n sized.
            Spends-bind n₂ _ (Spends-reading n₂ Context.header_size (read_compressed_int-Spends n₂))
              λ hs n₃ size_taken.
                Spends-bind n₃ _ (Spends-reading n₃ Context.header_checksum (read_full-Spends n₃ n))
                  λ digest n₄ taken. Spends-pure n₄ _ (
                    omega (
                      arith,
                      id_taken,
                      type_taken,
                      size_taken,
                      taken,
                      length-magic_of d,
                      length-append (magic_of d)
                          (append_compressed_int [] t ++ (append_compressed_int [] hs ++ digest)),
                      length-append (append_compressed_int [] t)
                          (append_compressed_int [] hs ++ digest),
                      length-append (append_compressed_int [] hs) digest,
                    ))

pub read_lead-Splits : Splits read_lead
unfolding read_lead
read_lead-Splits = Splits-bind _ (Splits-reading lead_id (read_full-Splits 5)) λ id.
    Splits-bind _ (Splits-lift (detached_of id)) λ d.
      Splits-bind _ (Splits-reading Context.checksum_type read_compressed_int-Splits) λ t.
        Splits-bind _ (Splits-lift (size t)) λ n.
          Splits-bind _ (Splits-reading Context.header_size read_compressed_int-Splits) λ hs.
            Splits-bind _ (Splits-reading Context.header_checksum (read_full-Splits n))
              λ digest. Splits-pure _

-- A lead that `ReadLead` has read from any input, however its integers were coded, `WriteTo` writes
-- without an error, in no more bytes than were read, and `ReadLead` reads it back from the bytes,
-- whatever follows them.
pub lead_bytes-read_lead :
    (end : Ending) (s : Bytes) {l : Lead} {rest : Bytes}
    → read_lead end s ≡ ok (l, rest)
    → (bs : Bytes) × (lead_bytes l ≡ ok bs)
      × ((length bs + length rest ≤ length s) × Reads read_lead bs l)
lead_bytes-read_lead end s {l} {rest} e =
    let w = read_lead-IsLead.holds end s e in
    let (bs, made) = lead_bytes_total l w in
    let spent = read_lead-Spends.run end s (length s) (omega arith) e in
    let same = ap length (lead_bytes-layout l made).0 in
    (
      bs,
      made,
      (
        omega (arith, same, spent.left, spent.holds),
        read_lead-lead_bytes l bs w.type_fits w.size_fits made,
      ),
    )
