-- ===== src/Tests/Schedule.antt =====
-- The examples for intervals, backoff and cursors.
use bfeed.Base.{
  ℕ, zero, suc, ◌+◌, ◌*◌, ◌/◌, ◌^◌, ◌≡◌, refl, min, max, false, Option, none, some, [], ◌∷◌, arith,
  ap, ◌==◌, if◌then◌else◌,
}
use bfeed.Base.Int.{ℤ, pos, negsuc, pos_part, ◌≤ℤ◌, ◌<ℤ◌, min_ℤ}
use bfeed.Base.Text.{Text}
use bfeed.Core.Types.{Cursor, minute, hour}
use bfeed.Core.Schedule.{add_jitter, adaptive_interval, max_ttl_influence, raw_interval}
use bfeed.Core.Schedule.Bounds.{IsSound, adaptive_interval_bounds, adaptive_interval_honours_ttl}
use bfeed.Core.Reschedule.{backoff, reschedule_delay}
use bfeed.Core.Reschedule.Backoff.{backoff_exact, backoff_wraps, reschedule_delay_bounds, shift}
use bfeed.Core.Cursor.{Codec, encode_cursor, decode_cursor}
use bfeed.Core.Cursor.RoundTrip.{IsCodec, has_colon, decode_cursor-encode_cursor}
use bfeed.Tests.Service.{no_floats, schedule, config}

schedule-IsSound : IsSound schedule
schedule-IsSound = omega arith

adaptive_interval_bounds_example :
    let interval = adaptive_interval no_floats 7 schedule (pos 0) none in
    (min_ℤ schedule.min_interval schedule.max_interval ≤ℤ interval)
    × (interval
        ≤ℤ pos (
            max
              (pos_part schedule.max_interval + pos_part schedule.max_interval / 4)
              max_ttl_influence))
adaptive_interval_bounds_example =
    adaptive_interval_bounds no_floats 7 schedule (pos 0) none schedule-IsSound tt

adaptive_interval_honours_ttl_example :
    min_ℤ (pos hour) (pos max_ttl_influence)
    ≤ℤ adaptive_interval no_floats 7 schedule (pos hour) none
adaptive_interval_honours_ttl_example =
    adaptive_interval_honours_ttl no_floats 7 schedule (pos hour) none (omega arith)

daily : adaptive_interval no_floats 7 schedule (pos 0) none ≡ pos (24 * hour)
unfolding adaptive_interval raw_interval add_jitter
daily = refl

backoff_exact_example :
    backoff (record { interval = pos (5 * minute); max_backoff = pos (24 * hour) }) 3
    ≡ pos (min (5 * minute * 2 ^ shift 3) (24 * hour))
backoff_exact_example = backoff_exact (5 * minute) (24 * hour) 3 (omega arith) (omega arith)

-- An interval of 2^48 + 1 ns, a little over 78 hours, backs off by 65536 ns.
backoff_wraps_example :
    backoff (record { interval = pos (2 ^ 48 + 1); max_backoff = pos (200 * hour) }) 20
    ≡ pos (1 * 2 ^ 16)
backoff_wraps_example =
    backoff_wraps 1 (200 * hour) 20 (omega arith) (omega arith) (omega arith) (omega arith)

reschedule_delay_bounds_example :
    let cfg = config.reschedule in
    (pos 0 <ℤ reschedule_delay cfg 2 (pos (90 * hour)) none)
    × (reschedule_delay cfg 2 (pos (90 * hour)) none
        ≤ℤ pos (pos_part cfg.max_backoff + pos_part cfg.max_backoff / 4))
reschedule_delay_bounds_example =
    reschedule_delay_bounds config.reschedule 2 (pos (90 * hour)) none (omega arith) (omega arith)
      (omega arith) tt

least : ℤ → ℤ
least n = pos 0

-- Unary numerals after a sign stand for the decimal form.
unary : ℕ → Text
unary zero = []
unary (suc n) = b'1' ∷ unary n

parse_unary : Text → ℕ
parse_unary [] = 0
parse_unary (c ∷ t) = suc (parse_unary t)

abbrev show : ℤ → Text
show (pos n) = b'+' ∷ unary n
show (negsuc n) = b'-' ∷ unary n

abbrev parse : Text → Option ℤ
parse [] = none
parse (c ∷ t) = if c == b'-' then some (negsuc (parse_unary t)) else some (pos (parse_unary t))

abbrev unary_codec : Codec
unary_codec = record {
  format_int = show;
  parse_int = parse;
  base64_encode = λ s. s;
  base64_decode = λ s. some s;
}

parse-unary : (n : ℕ) → parse_unary (unary n) ≡ n
unfolding unary parse_unary
parse-unary zero = refl
parse-unary (suc n) = ap suc (parse-unary n)

unary-no_colon : (n : ℕ) → has_colon (unary n) ≡ false
unfolding unary
unary-no_colon zero = refl
unary-no_colon (suc n) = unary-no_colon n

unary_codec-IsCodec : IsCodec unary_codec
unary_codec-IsCodec = record {
  decode_encode = λ s. refl;
  parse_format = λ n h. parse-show n;
  no_colon = λ n. show-no_colon n;
}
  where
    parse-show : (n : ℤ) → parse (show n) ≡ some n
    parse-show (pos n) = ap (λ m. some (pos m)) (parse-unary n)
    parse-show (negsuc n) = ap (λ m. some (negsuc m)) (parse-unary n)

    show-no_colon : (n : ℤ) → has_colon (show n) ≡ false
    show-no_colon (pos n) = unary-no_colon n
    show-no_colon (negsuc n) = unary-no_colon n

abbrev position : Cursor
position = record { key = negsuc 2; id = pos 5 }

decode_cursor_example :
    decode_cursor unary_codec (encode_cursor unary_codec position) ≡ some position
decode_cursor_example =
    decode_cursor-encode_cursor unary_codec position unary_codec-IsCodec (omega arith, omega arith)
      (omega arith, omega arith)
