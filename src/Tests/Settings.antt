-- ===== src/Tests/Settings.antt =====
-- The port in a configuration of two pairs is changed.
use pic_bed.Prelude.{true, false, some, [], ◌∷◌, Text, codes, ◌≡◌, refl, arith}
use pic_bed.Config.{
  ConfigFileReader, text_less, assign, config_file_reader, get_config_name, set_config_value,
  write_file, write_pairs,
}
use pic_bed.Config.RoundTrip.{set_config_value-config_file_reader}

abbrev ip : Text
ip = codes "ip"

abbrev host : Text
host = codes "10.0.0.1"

abbrev port : Text
port = codes "port"

abbrev old_port : Text
old_port = codes "80 81"

abbrev new_port : Text
new_port = codes "a=8081"

abbrev reader : ConfigFileReader
reader = record { load_ok = true; config_map = (ip, host) ∷ (port, old_port) ∷ [] }

set_config_value-config_file_reader_example :
    let file = (set_config_value true (λ s. true) port new_port reader).2 in
    let again = config_file_reader false file in
    (again.config_map ≡ assign port new_port reader.config_map)
    × (get_config_name port again ≡ some new_port)
unfolding text_less set_config_value write_file write_pairs
set_config_value-config_file_reader_example =
    set_config_value-config_file_reader true (λ s. true) port new_port reader false
      ((refl, tt), (tt, tt))
      (
        record {
          name = record { starts = refl; ends = refl; no_comment = refl; no_newline = refl };
          value = record { starts = refl; ends = refl; no_comment = refl; no_newline = refl };
          no_equals = refl;
          short = omega arith;
        },
        (
          record {
            name = record { starts = refl; ends = refl; no_comment = refl; no_newline = refl };
            value = record { starts = refl; ends = refl; no_comment = refl; no_newline = refl };
            no_equals = refl;
            short = omega arith;
          },
          tt,
        ),
      )
      (record {
        name = record { starts = refl; ends = refl; no_comment = refl; no_newline = refl };
        value = record { starts = refl; ends = refl; no_comment = refl; no_newline = refl };
        no_equals = refl;
        short = omega arith;
      })
      refl
