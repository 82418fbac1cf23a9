-- ===== src/Wire/CorrelationId/RoundTrip.antt =====
-- header.rs: a printed correlation id parses back.
use ice_rpc.Common.{
  ℕ, ◌+◌, ◌≡◌, refl, ◌∙◌, true, false, List, [], ◌∷◌, ◌++◌, length, replicate, arith, All,
  append_assoc, append-nil, length-append, length-take, length-drop, take, drop, All-take, All-drop,
  take-append-drop, take-drop-append-drop,
}
use ice_rpc.Common.Bytes.{IsByte}
use ice_rpc.Wire.CorrelationId.{
  hex_bytes, fmt_correlation_id, done, is_dash_index, parse_loop, parse_correlation_id,
}
use ice_rpc.Wire.CorrelationId.Runs.{parse_known, length-hex_bytes}

-- The pieces that the printer takes: lengths, and their sum.
pub record Pieces (cid a b c d e : List ℕ) : Type 0 where
  whole : (((a ++ b) ++ c) ++ d) ++ e ≡ cid
  len_a : length a ≡ 4
  len_b : length b ≡ 2
  len_c : length c ≡ 2
  len_d : length d ≡ 2
  len_e : length e ≡ 6
  bytes_a : All IsByte a
  bytes_b : All IsByte b
  bytes_c : All IsByte c
  bytes_d : All IsByte d
  bytes_e : All IsByte e

grouped : List ℕ → List ℕ → List ℕ → List ℕ → List ℕ → List ℕ
grouped a b c d e =
    hex_bytes a
    ++ (b'-'
        ∷ (hex_bytes b
            ++ (b'-' ∷ (hex_bytes c ++ (b'-' ∷ (hex_bytes d ++ (b'-' ∷ (hex_bytes e ++ []))))))))

parse_dash :
    (i n : ℕ) (out rest : List ℕ)
    → is_dash_index i ≡ true
    → parse_loop true i n out (b'-' ∷ rest) ≡ parse_loop true (i + 1) n out rest
unfolding parse_loop
parse_dash i n out rest h = rw (h, parse_loop)

parse_grouped :
    {cid a b c d e : List ℕ}
    → Pieces cid a b c d e
    → parse_loop true 0 0 (replicate 16 0) (grouped a b c d e) ≡ done (32, cid)
unfolding grouped parse_loop
parse_grouped {cid} {a} {b} {c} {d} {e} p =
    parse_known true 0 0 4 12 [] a _ refl len_a bytes_a refl
    ∙ parse_dash 8 8 _ _ refl
    ∙ parse_known true 9 4 2 10 a b _ len_a len_b bytes_b refl
    ∙ parse_dash 13 12 _ _ refl
    ∙ parse_known true 14 6 2 8 (a ++ b) c _ (omega (arith, length-append a b)) len_c bytes_c refl
    ∙ parse_dash 18 16 _ _ refl
    ∙ parse_known true 19 8 2 6 ((a ++ b) ++ c) d _
        (omega (arith, length-append (a ++ b) c, length-append a b)) len_d bytes_d refl
    ∙ parse_dash 23 20 _ _ refl
    ∙ parse_known true 24 10 6 0 (((a ++ b) ++ c) ++ d) e _
        (omega
          (arith, length-append ((a ++ b) ++ c) d, length-append (a ++ b) c, length-append a b))
        len_e bytes_e refl
    ∙ rw (append-nil, whole)
  where
    open p use {
      whole, len_a, len_b, len_c, len_d, len_e, bytes_a, bytes_b, bytes_c, bytes_d, bytes_e,
    }

cid-Pieces :
    (cid : List ℕ)
    → length cid ≡ 16
    → All IsByte cid
    → Pieces cid
        (take 4 cid)
        (take 2 (drop 4 cid))
        (take 2 (drop 6 cid))
        (take 2 (drop 8 cid))
        (drop 10 cid)
cid-Pieces cid n h = record {
  whole = rw (
    append_assoc,
    append_assoc,
    append_assoc,
    take-drop-append-drop 2 8 cid,
    take-drop-append-drop 2 6 cid,
    take-drop-append-drop 2 4 cid,
    take-append-drop 4 cid,
  );
  len_a = length-take 4 cid (omega arith);
  len_b = length-take 2 (drop 4 cid) (omega (arith, length-drop 4 cid));
  len_c = length-take 2 (drop 6 cid) (omega (arith, length-drop 6 cid));
  len_d = length-take 2 (drop 8 cid) (omega (arith, length-drop 8 cid));
  len_e = omega (arith, length-drop 10 cid);
  bytes_a = All-take IsByte 4 cid h;
  bytes_b = All-take IsByte 2 (drop 4 cid) (All-drop IsByte 4 cid h);
  bytes_c = All-take IsByte 2 (drop 6 cid) (All-drop IsByte 6 cid h);
  bytes_d = All-take IsByte 2 (drop 8 cid) (All-drop IsByte 8 cid h);
  bytes_e = All-drop IsByte 10 cid h;
}

length-fmt :
    (cid : List ℕ) → length cid ≡ 16 → All IsByte cid → length (fmt_correlation_id cid) ≡ 36
unfolding fmt_correlation_id
length-fmt cid n h =
    let p = cid-Pieces cid n h in
    simp (length-append, length-hex_bytes, p.len_a, p.len_b, p.len_c, p.len_d, p.len_e)

-- The 36-character text that is printed for 16 bytes parses back to them.
pub parse-fmt :
    (cid : List ℕ)
    → length cid ≡ 16
    → All IsByte cid
    → parse_correlation_id (fmt_correlation_id cid) ≡ done cid
unfolding parse_correlation_id
parse-fmt cid n h =
    rw (length-fmt cid n h, parse_correlation_id)
      (rw (fmt-grouped cid, parse_grouped (cid-Pieces cid n h)))
  where
    fmt-grouped :
        (cid : List ℕ)
        → fmt_correlation_id cid
          ≡ grouped
              (take 4 cid)
              (take 2 (drop 4 cid))
              (take 2 (drop 6 cid))
              (take 2 (drop 8 cid))
              (drop 10 cid)
    fmt-grouped cid = unfold fmt_correlation_id grouped in rw append-nil

-- The undashed form of 32 characters parses back to its 16 bytes as well.
pub parse-hex_bytes :
    (cid : List ℕ)
    → length cid ≡ 16
    → All IsByte cid
    → parse_correlation_id (hex_bytes cid) ≡ done cid
unfolding parse_correlation_id parse_loop
parse-hex_bytes cid n h =
    rw (length-hex_bytes cid, n, parse_correlation_id)
      (rw (
        ← append-nil (hex_bytes cid),
        parse_known false 0 0 16 0 [] cid [] refl n h refl,
        append-nil cid,
      ))
