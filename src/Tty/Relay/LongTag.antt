-- ===== src/Tty/Relay/LongTag.antt =====
-- A long host tag (`process_msg_table` of tty_reader/tty_reader_influx.zig).
use renogy_x.Base.{ℕ, ◌+◌, ◌≤◌}
use renogy_x.Base.{◌≡◌, refl, ap, ◌∙◌, arith}
use renogy_x.Base.{none, List, ◌∷◌, ◌++◌, length, length-append, codes}
use renogy_x.Tty.Parse.{Parse, IsParse}
use renogy_x.Tty.Publisher.{body}
use renogy_x.Tty.Relay.Settings.{Settings, Net}
use renogy_x.Tty.Relay.Points.{Relay, line_text, request, process_msg_table, process_msg}
use renogy_x.Tty.Relay.Tables.{Point, AreWords, post_all}
use renogy_x.Tty.Relay.Posted.{
  Device, renogy, pzem3, pzem6, pzem10, temp11, pzem12, pzem13, range_of, points_of,
  process_msg-points_of,
}

length-line_text :
    (settings : Settings) (table_name value : List ℕ)
    → length table_name + length settings.influx_host_tag + 14
      ≤ length (line_text settings table_name value)
unfolding line_text
length-line_text settings table_name value =
    let to_tag = table_name ++ codes ",host=" in
    let to_equals = to_tag ++ settings.influx_host_tag ++ codes " value=" in
    let whole : line_text settings table_name value ≡ to_equals ++ value ++ codes "\n" = refl in
    omega (
      arith,
      ap length whole,
      length-append table_name (codes ",host="),
      length-append to_tag settings.influx_host_tag,
      length-append (to_tag ++ settings.influx_host_tag) (codes " value="),
      length-append to_equals value,
      length-append (to_equals ++ value) (codes "\n"),
    )

request-none :
    (settings : Settings) (table_name value : List ℕ)
    → 11 ≤ length table_name
    → 40 ≤ length settings.influx_host_tag
    → request settings table_name value ≡ none
unfolding request
request-none settings table_name value h tag =
    ground (arith, length-line_text settings table_name value, h, tag)

module _ (N : Net) (P : Parse) (laws : IsParse P) where
  first-none :
      (table_name : List ℕ) (value divisor : ℕ) (points : List Point) (info : Relay N)
      → 11 ≤ length table_name
      → 40 ≤ length info.settings.influx_host_tag
      → post_all N ((table_name, (value, divisor)) ∷ points) info ≡ none
  unfolding post_all process_msg_table
  first-none table_name value divisor points info h tag =
      cc (request-none info.settings table_name (N.fixed value divisor) h tag)

  post_all-none :
      (device : Device) (regs : List ℕ) (info : Relay N)
      → 40 ≤ length info.settings.influx_host_tag
      → post_all N (points_of device regs) info ≡ none
  post_all-none renogy regs info tag = first-none _ _ _ _ info (omega arith) tag
  post_all-none pzem3 regs info tag = first-none _ _ _ _ info (omega arith) tag
  post_all-none pzem6 regs info tag = first-none _ _ _ _ info (omega arith) tag
  post_all-none pzem10 regs info tag = first-none _ _ _ _ info (omega arith) tag
  post_all-none temp11 regs info tag = first-none _ _ _ _ info (omega arith) tag
  post_all-none pzem12 regs info tag = first-none _ _ _ _ info (omega arith) tag
  post_all-none pzem13 regs info tag = first-none _ _ _ _ info (omega arith) tag

  -- With a host tag of 40 bytes or more, which the settings allow, each message of a device that is known
  -- is an error, as the line does not fit into its buffer of 64 bytes.
  pub process_msg-none :
      (device : Device) (regs : List ℕ) (info : Relay N)
      → length regs ≡ (range_of device).count
      → AreWords regs
      → 40 ≤ length info.settings.influx_host_tag
      → let r = range_of device in
        process_msg N P (body P r.type r.id r.address r.count regs) info ≡ none
  process_msg-none device regs info h words tag =
      process_msg-points_of N P laws device regs info h words ∙ post_all-none device regs info tag
