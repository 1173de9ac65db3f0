-- ===== src/WebDav/Dump/Params/Range.antt =====
-- The range of a dump (dsvn-webdav/src/dump_handlers.rs) against the head of the repository.
use dsvn.Prelude.{
  ℕ, ◌+◌, ◌^◌, ◌≤◌, ◌<◌, ◌≡◌, refl, ap, if◌then◌else◌, leb, ◌&&◌, false, [], ◌∷◌, ◌++◌, arith, All,
  All-append, ◌==◌,
}
use dsvn.Bytes.{Bytes, ascii, eqb}
use dsvn.Text.{split_once, to_lowercase}
use dsvn.Text.Search.{Free, split_on-Free, split_once-Free}
use dsvn.Decimal.{decimal}
use dsvn.Decimal.RoundTrip.{decimal-All, parse_u64-decimal}
use dsvn.WebDav.Dump.Params.{DumpParams, from_query, clamp, read_params, read_param, parse_end}

clamp_lem :
    (head_rev : ℕ) (p : DumpParams)
    → ((clamp head_rev p).start_rev ≤ (clamp head_rev p).end_rev)
      × ((clamp head_rev p).start_rev ≤ head_rev)
unfolding clamp
clamp_lem head_rev p = (ground arith, ground arith)

-- For every query, the range of a dump is ascending, and it starts at most at the head.
pub from_query_bounds :
    (query : Bytes) (head_rev : ℕ)
    → ((from_query query head_rev).start_rev ≤ (from_query query head_rev).end_rev)
      × ((from_query query head_rev).start_rev ≤ head_rev)
unfolding from_query
from_query_bounds query head_rev = clamp_lem head_rev _

no_head : (t : Bytes) → All (λ c. c < 58) t → eqb (to_lowercase t) (ascii "head") ≡ false
unfolding eqb to_lowercase
no_head [] a = refl
no_head (c ∷ t) a = rw (other c a.0) refl
  where
    other : (c : ℕ) → c < 58 → ((if leb 65 c && leb c 90 then c + 32 else c) == b'h') ≡ false
    other c h = ground arith

digits-Free : (c : ℕ) → 57 < c → (n : ℕ) → Free c (decimal n)
digits-Free c h n = decimal-All (λ d. (d == c) ≡ false) other n
  where
    other : (d : ℕ) → d < 10 → (48 + d == c) ≡ false
    other d h' = ground arith

parse_end-decimal : (head_rev e : ℕ) → e < 2 ^ 64 → parse_end head_rev (decimal e) ≡ e
unfolding parse_end
parse_end-decimal head_rev e b =
    rw (no_head (decimal e) (decimal-All (λ c. c < 58) (λ d h. omega arith) e))
      (rw (parse_u64-decimal e b) refl)

-- The value of a parameter `r`.
range_text : (s e : ℕ) → Bytes
range_text s e = decimal s ++ (b':' ∷ decimal e)

pub range_query : (s e : ℕ) → Bytes
unfolding range_text
range_query s e = ascii "r=" ++ range_text s e

digits_and_colon : (s e : ℕ) → Free b'&' (range_text s e)
unfolding range_text
digits_and_colon s e =
    All-append (λ d. (d == b'&') ≡ false) (decimal s) (b':' ∷ decimal e) (free s) (refl, free e)
  where
    other : (d : ℕ) → d < 10 → (48 + d == b'&') ≡ false
    other d h = ground arith

    free : (n : ℕ) → Free b'&' (decimal n)
    free n = decimal-All (λ d. (d == b'&') ≡ false) other n

read_param-range :
    (head_rev s e : ℕ) (p : DumpParams)
    → s < 2 ^ 64
    → e < 2 ^ 64
    → read_param head_rev p (ascii "r") (range_text s e) ≡ record p { start_rev = s; end_rev = e }
unfolding read_param range_text eqb
read_param-range head_rev s e p bs be =
    rw (split_once-Free b':' (decimal s) (decimal e) (digits-Free b':' (omega arith) s))
      (rw (parse_u64-decimal s bs) (rw (parse_end-decimal head_rev e be) refl))

from_query-range :
    (head_rev s e : ℕ)
    → s < 2 ^ 64
    → e < 2 ^ 64
    → from_query (range_query s e) head_rev
      ≡ clamp head_rev
          (record { start_rev = s; end_rev = e; incremental = false; format_version = 3 })
unfolding from_query range_query read_params split_once
from_query-range head_rev s e bs be =
    rw (split_on-Free b'&' (ascii "r=" ++ range_text s e) (refl, (refl, digits_and_colon s e)))
      (ap (clamp head_rev) (read_param-range head_rev s e _ bs be))

-- A dump of the revisions `s` to `e`, both 64-bit, where `s` is above the head and `e` is not: only
-- the end is compared with the head before the two are swapped, so that the range goes from `e` to
-- `s` and past the head.
pub from_query_past_head :
    (head_rev s e : ℕ)
    → s < 2 ^ 64
    → e ≤ head_rev
    → head_rev < s
    → ((from_query (range_query s e) head_rev).start_rev ≡ e)
      × ((from_query (range_query s e) head_rev).end_rev ≡ s)
unfolding clamp
from_query_past_head head_rev s e bs low high =
    let read = from_query-range head_rev s e bs (omega arith) in
    (rw (read, clamp) (ground arith), rw (read, clamp) (ground arith))
