-- ===== src/Influx/Request.antt =====
-- The request that posts a value: the two `snprintf` calls of `main_modbus_loop` in
-- renogy_influx/renogy_influx.c, and the constants that they use.
use renogy_x.Base.{ℕ, ◌+◌, ◌≤◌, ◌<◌}
use renogy_x.Base.{◌≡◌, refl, ap, ◌∙◌, arith}
use renogy_x.Base.{List, ◌++◌}
use renogy_x.Base.{length, length-append, take_all}
use renogy_x.Base.{codes, decimal, printed}
use renogy_x.Base.{read_digits, read_digits-decimal, length-decimal}

abbrev pub influx_database : List ℕ
influx_database = codes "voltages"

abbrev pub influx_token : List ℕ
influx_token =
    codes "Wh4XF_BN120-dvfZiI0T6L7DIdG7Ma8JnSMW6GnMTpT5"
    ++ codes "uG4qDlBFsEGS_jwo9eBD2pf2jtra7sgi0ajl5R-oEA=="

abbrev pub influx_hostname : List ℕ
influx_hostname = codes "server3.xrdp.org"

abbrev pub influx_port : ℕ
influx_port = 8086

-- "renogy,host=serverA value=%d\n"
unfoldable pub line_text : ℕ → List ℕ
line_text value = codes "renogy,host=serverA value=" ++ (decimal value ++ codes "\n")

-- Everything of the request up to the length of its body.
unfoldable pub head_text : List ℕ
unfolding decimal
head_text =
    codes "POST /api/v2/write?org=org1&bucket="
    ++ influx_database
    ++ codes " HTTP/1.1\r\nHost: "
    ++ influx_hostname
    ++ codes ":"
    ++ decimal influx_port
    ++ codes "\r\nAuthorization: Token "
    ++ influx_token
    ++ codes
        "\r\nContent-Type: text/plain; charset=utf-8\r\nAccept: application/json\r\nContent-Length: "

unfoldable pub request_text : List ℕ → List ℕ
request_text buffer_con =
    head_text ++ (decimal (length buffer_con) ++ (codes "\r\n\r\n" ++ buffer_con))

-- The contents of `buffer_con`, of 64 bytes, and of `buffer_out`, of 2048 bytes.
unfoldable pub buffer_con : ℕ → List ℕ
buffer_con value = printed 64 (line_text value)

unfoldable pub buffer_out : ℕ → List ℕ
buffer_out value = printed 2048 (request_text (buffer_con value))

length-line_text : (value : ℕ) → value < 65536 → length (line_text value) ≤ 32
unfolding line_text
length-line_text value h = omega (
  arith,
  length-append (codes "renogy,host=serverA value=") (decimal value ++ codes "\n"),
  length-append (decimal value) (codes "\n"),
  length-decimal 4 value (omega arith),
)

-- A register's value is written out in full.
pub buffer_con-eq-line_text : (value : ℕ) → value < 65536 → buffer_con value ≡ line_text value
unfolding buffer_con
buffer_con-eq-line_text value h =
    take_all 63 (line_text value) (omega (arith, length-line_text value h))

length-head_text : length head_text ≡ 277
unfolding head_text
length-head_text = refl

length-request_text :
    (body : List ℕ) → length body < 100 → length (request_text body) ≤ 283 + length body
unfolding request_text
length-request_text body h = omega (
  arith,
  length-head_text,
  length-append head_text (decimal (length body) ++ (codes "\r\n\r\n" ++ body)),
  length-append (decimal (length body)) (codes "\r\n\r\n" ++ body),
  length-append (codes "\r\n\r\n") body,
  length-decimal 1 (length body) (omega arith),
)

-- The request of a register's value is whole: its head, the length of the body in digits, an empty
-- line, and the body, whose digits read back as the value; and it leaves room for the NUL.
pub buffer_out-well_formed :
    (value : ℕ)
    → value < 65536
    → let body = codes "renogy,host=serverA value=" ++ (decimal value ++ codes "\n") in
      (buffer_out value ≡ head_text ++ (decimal (length body) ++ (codes "\r\n\r\n" ++ body)))
      × (read_digits 0 (decimal (length body)) ≡ length body)
      × (read_digits 0 (decimal value) ≡ value)
      × (length (buffer_out value) < 2048)
unfolding buffer_out
buffer_out-well_formed value h =
    let con = buffer_con-eq-line_text value h in
    let short = length-line_text value h in
    let size = length-request_text (line_text value) (omega (arith, short)) in
    let whole : buffer_out value ≡ request_text (line_text value) =
      ap (λ b. printed 2048 (request_text b)) con
      ∙ take_all 2047 (request_text (line_text value)) (omega (arith, size, short)) in
    (
      whole ∙ (unfold request_text line_text in refl),
      read_digits-decimal _,
      read_digits-decimal value,
      omega (arith, ap length whole, size, short),
    )
