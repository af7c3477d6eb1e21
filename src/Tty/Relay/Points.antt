-- ===== src/Tty/Relay/Points.antt =====
-- What tty_reader/tty_reader_influx.zig makes of a message: `process_msg_table` and `process_msg`.
use renogy_x.Base.{ℕ, ◌+◌, ◌==◌, leb, if◌then◌else◌}
use renogy_x.Base.{true, false, ◌&&◌, Option, none, some, List, [], ◌∷◌, ◌++◌, length}
use renogy_x.Base.{codes, decimal}
use renogy_x.Tty.Parse.{Parse}
use renogy_x.Tty.Relay.Settings.{Settings, Client, Net}

-- `bufPrint`: a text that does not fit is an error.
abbrev pub buf_print : ℕ → List ℕ → Option (List ℕ)
buf_print size text = if leb (length text) size then some text else none

-- "{s},host={s} value={d:.2}\n"
unfoldable pub line_text : Settings → (table_name value : List ℕ) → List ℕ
line_text settings table_name value =
    table_name
    ++ codes ",host="
    ++ settings.influx_host_tag
    ++ codes " value="
    ++ value
    ++ codes "\n"

unfoldable pub request_text : Settings → List ℕ → List ℕ
request_text settings str1 =
    codes "POST /api/v2/write?org="
    ++ settings.influx_org
    ++ codes "&bucket="
    ++ settings.influx_database
    ++ codes " HTTP/1.1\r\nHost: "
    ++ settings.influx_hostname
    ++ codes ":"
    ++ decimal settings.influx_port
    ++ codes "\r\nAuthorization: Token "
    ++ settings.influx_token
    ++ codes
        "\r\nContent-Type: text/plain; charset=utf-8\r\nAccept: application/json\r\nContent-Length: "
    ++ decimal (length str1)
    ++ codes "\r\n\r\n"
    ++ str1

-- A request for a line, where both fit into their buffers.
unfoldable pub request : Settings → (table_name value : List ℕ) → Option (List ℕ)
unfolding line_text request_text
request settings table_name value = elim (buf_print 64 (line_text settings table_name value)) [
  | none ↦ none
  | some str1 ↦ buf_print 2048 (request_text settings str1)
]

module _ (N : Net) where
  abbrev pub Relay : Type 0
  Relay = Client N.World

  unfoldable pub process_msg_table :
      (table_name : List ℕ) → (value divisor : ℕ) → Relay → Option Relay
  unfolding request
  process_msg_table table_name value divisor info =
      elim (request info.settings table_name (N.fixed value divisor)) [
        | none ↦ none
        | some str2 ↦ some (record info {
          queue = info.queue ++ (record { sent = 0; out_data_slice = str2 } ∷ []);
        })
      ]

  -- What comes after a call.
  abbrev pub Later : Type 0
  Later = List ℕ → Relay → Option Relay

  -- A table, and what comes after it.
  unfoldable pub post :
      (table_name : List ℕ) → (divisor : ℕ) → ℕ × List ℕ → Relay → Later → Option Relay
  unfolding process_msg_table
  post table_name divisor (value, s) info later =
      elim (process_msg_table table_name value divisor info) [
        | none ↦ none
        | some next ↦ later s next
      ]

  module _ (P : Parse) where
    -- A number of 16 bits, or of 32 bits, and its table.
    unfoldable pub word :
        (table_name : List ℕ) → (divisor : ℕ) → List ℕ → Relay → Later → Option Relay
    unfolding post
    word table_name divisor s info later = elim (P.check_rem 2 s) [
      | false ↦ none
      | true ↦ post table_name divisor (P.in_u16_le s) info later
    ]

    unfoldable pub long :
        (table_name : List ℕ) → (divisor : ℕ) → List ℕ → Relay → Later → Option Relay
    unfolding post
    long table_name divisor s info later = elim (P.check_rem 4 s) [
      | false ↦ none
      | true ↦ post table_name divisor (P.in_u32_le s) info later
    ]

    -- A number of 16 bits after `n` bytes that are passed over.
    unfoldable pub word_after :
        (n : ℕ) → (table_name : List ℕ) → (divisor : ℕ) → List ℕ → Relay → Later → Option Relay
    unfolding post
    word_after n table_name divisor s info later = elim (P.check_rem (n + 2) s) [
      | false ↦ none
      | true ↦ post table_name divisor (P.in_u16_le (P.in_u8_skip n s)) info later
    ]

    abbrev pub finish : Later
    finish s info = some info

    unfoldable pub battery : Later
    unfolding word word_after
    battery s info = word_after 2 (codes "renogy_volts") 10 s info (λ s info.
        word (codes "renogy_amps") 100 s info (λ s info.
          word_after 8 (codes "renogy_pvvolts") 10 s info (λ s info.
            word (codes "renogy_pvamps") 100 s info
              (λ s info. word (codes "renogy_pvwatts") 1 s info finish))))

    -- The meters 3, 6 and 10, for direct current.
    unfoldable pub dc_meter : (volts amps watts : List ℕ) → Later
    unfolding word
    dc_meter volts amps watts s info =
        word volts 100 s info
          (λ s info. word amps 100 s info (λ s info. word watts 10 s info finish))

    unfoldable pub thermometer : Later
    unfolding word
    thermometer s info =
        word (codes "temp11_temp") 10 s info (λ s info. word (codes "temp11_hum") 10 s info finish)

    -- The meters 12 and 13, for alternating current.
    unfoldable pub ac_meter : (volts amps watts : List ℕ) → Later
    unfolding word long
    ac_meter volts amps watts s info =
        word volts 10 s info
          (λ s info. long amps 1000 s info (λ s info. long watts 10 s info finish))

    -- The `if`s on type, device and range.
    unfoldable pub on_range : (type1 id address1 count : ℕ) → Later
    unfolding battery dc_meter thermometer ac_meter
    on_range type1 id address1 count s info =
        if type1 == 0 && id == 9
        then if address1 == 256 && count == 10 then battery s info else some info
        else if type1 == 1 && id == 3
        then if address1 == 0 && count == 8
          then dc_meter (codes "pzem3_volts") (codes "pzem3_amps") (codes "pzem3_watts") s info
          else some info
        else if type1 == 1 && id == 6
        then if address1 == 0 && count == 8
          then dc_meter (codes "pzem6_volts") (codes "pzem6_amps") (codes "pzem6_watts") s info
          else some info
        else if type1 == 1 && id == 10
        then if address1 == 0 && count == 8
          then dc_meter (codes "pzem10_volts") (codes "pzem10_amps") (codes "pzem10_watts") s info
          else some info
        else if type1 == 1 && id == 11
        then if address1 == 1 && count == 2 then thermometer s info else some info
        else if type1 == 1 && id == 12
        then if address1 == 0 && count == 10
          then ac_meter (codes "pzem12_volts") (codes "pzem12_amps") (codes "pzem12_watts") s info
          else some info
        else if type1 == 1 && id == 13
        then if address1 == 0 && count == 10
          then ac_meter (codes "pzem13_volts") (codes "pzem13_amps") (codes "pzem13_watts") s info
          else some info
        else some info

    unfoldable pub process_msg : List ℕ → Relay → Option Relay
    unfolding on_range
    process_msg s info = elim (P.check_rem 8 s) [
      | false ↦ none
      | true ↦
          let (type1, s1) = P.in_u16_le s in
          let (id, s2) = P.in_u16_le s1 in
          let (address1, s3) = P.in_u16_le s2 in
          let (count, s4) = P.in_u16_le s3 in on_range type1 id address1 count s4 info
    ]
