-- ===== src/Formatting/Examples.antt =====
-- Times at a concrete position.
use chronicler.Base.{◌≡◌, some, none, true, false}
use chronicler.Formatting.{format_timestamp, parse_timestamp}
use chronicler.Formatting.RoundTrip.{parse_timestamp-format_timestamp, parse_timestamp_millis}

parse_timestamp-format_timestamp_example :
    parse_timestamp (format_timestamp 3725400 false) ≡ some 3725000
parse_timestamp-format_timestamp_example = parse_timestamp-format_timestamp 3725400

parse_timestamp_millis_example : parse_timestamp (format_timestamp 3725400 true) ≡ none
parse_timestamp_millis_example = parse_timestamp_millis 3725400
