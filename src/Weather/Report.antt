-- ===== src/Weather/Report.antt =====
-- The classes of weather_core.h and weather_core.cpp, and the loop of weather_pub.cpp.
use sim_tools.Base.{
  ℕ, zero, suc, ◌+◌, ◌%◌, ◌==◌, ◌≡◌, List, [], ◌∷◌, ◌++◌, if◌then◌else◌, length, set, take, drop,
  leb, ltb,
}
use sim_tools.Base.Bytes.{Bytes, le_bytes, from_le}
use sim_tools.Base.Outcome.{Outcome, done, ◌>>=◌, ◌>>◌, in_bounds, recv}
use sim_tools.Core.Text.{c_string}

-- "BeiJing" and "ShangHai".
abbrev pub bei_jing : Bytes
bei_jing = 66 ∷ 101 ∷ 105 ∷ 74 ∷ 105 ∷ 110 ∷ 103 ∷ []

abbrev pub shang_hai : Bytes
shang_hai = 83 ∷ 104 ∷ 97 ∷ 110 ∷ 103 ∷ 72 ∷ 97 ∷ 105 ∷ []

-- The float arithmetic of the machine: `over_pi i` is i / 3.1415926f, `of_int i` is i * 1.0f.
pub record Floats : Type 1 where
  pub Float : Type 0
  pub over_pi : ℕ → Float
  pub of_int : ℕ → Float
  pub to_bytes : Float → Bytes
  pub of_bytes : Bytes → Float
  pub to_bytes-length : (x : Float) → length (to_bytes x) ≡ 4
  pub of_bytes-to_bytes : (x : Float) → of_bytes (to_bytes x) ≡ x

pub record WeatherInfo (Float : Type 0) : Type 0 where
  pub city_name : Bytes  -- char[256]
  pub city_name_length : ℕ  -- uint32_t
  pub temperature : Float
  pub relhumidity : Float

-- A line of printWeatherInfo.
pub record Shown (Float : Type 0) : Type 0 where
  pub city : Bytes
  pub code_length : ℕ
  pub temperature : Float
  pub relhumidity : Float

unfoldable pub weather_info_size : ℕ
weather_info_size = 268

-- What the socket has sent.
pub record WeatherPuber : Type 0 where
  pub sent : List Bytes

-- `input` is what the socket still receives, `shown` what has been printed.
pub record WeatherSuber (Float : Type 0) : Type 0 where
  pub suber_name : Bytes
  pub sub_topic : Bytes
  pub input : List Bytes
  pub shown : List (Shown Float)

unfoldable pub print_weather_info : {Float : Type 0} → WeatherInfo Float → Outcome (Shown Float)
print_weather_info w = do
  city ← c_string w.city_name
  done (record {
    city = city;
    code_length = w.city_name_length;
    temperature = w.temperature;
    relhumidity = w.relhumidity;
  })

-- setSubTopic, and the constructor, which calls it.
unfoldable pub set_sub_topic : {Float : Type 0} → WeatherSuber Float → Bytes → WeatherSuber Float
set_sub_topic s topic = record s { sub_topic = topic }

unfoldable pub make_suber : {Float : Type 0} → Bytes → WeatherSuber Float
make_suber topic =
    set_sub_topic (record { suber_name = topic; sub_topic = topic; input = []; shown = [] }) topic

-- The body of main's loop up to the temperature: the city's bytes without their NUL, and a NUL one
-- place further on.
unfoldable pub put_city : {Float : Type 0} → WeatherInfo Float → Bytes → Outcome (WeatherInfo Float)
put_city w city = do
  in_bounds (ltb (length city + 1) (length w.city_name))
  done (record w {
    city_name = set (city ++ drop (length city) w.city_name) (length city + 1) 0;
    city_name_length = length city + 1;
  })

module _ (F : Floats) where
  open F use {Float, to_bytes, of_bytes}

  -- The bytes of the structure.
  unfoldable pub encode_weather : WeatherInfo Float → Bytes
  encode_weather w =
      w.city_name
      ++ (le_bytes 4 w.city_name_length ++ (to_bytes w.temperature ++ to_bytes w.relhumidity))

  unfoldable pub decode_weather : Bytes → WeatherInfo Float
  decode_weather b =
      let rest1 = drop 256 b in
      let rest2 = drop 4 rest1 in
      record {
        city_name = take 256 b;
        city_name_length = from_le (take 4 rest1);
        temperature = of_bytes (take 4 rest2);
        relhumidity = of_bytes (take 4 (drop 4 rest2));
      }

  unfoldable pub publish : WeatherPuber → WeatherInfo Float → Outcome WeatherPuber
  publish p w = do
    shown ← print_weather_info w
    done (record p { sent = p.sent ++ encode_weather w ∷ [] })

  -- memcpy reads as many bytes as the structure has, whatever the message's size.
  unfoldable pub subscribe : WeatherSuber Float → Outcome (WeatherSuber Float)
  subscribe s = do
    (msg, rest) ← recv s.input
    in_bounds (leb weather_info_size (length msg))
    shown ← print_weather_info (decode_weather msg)
    done (record s { input = rest; shown = s.shown ++ shown ∷ [] })

  -- So many rounds of the loops of weather_sub_beijing.cpp and weather_sub_shanghai.cpp.
  unfoldable pub suber_rounds : ℕ → WeatherSuber Float → Outcome (WeatherSuber Float)
  suber_rounds zero s = done s
  suber_rounds (suc n) s = subscribe s >>= suber_rounds n

  -- Round i of the publisher's loop, and so many rounds from i on.
  unfoldable pub puber_round :
      ℕ → WeatherInfo Float × WeatherPuber → Outcome (WeatherInfo Float × WeatherPuber)
  puber_round i (w, p) = do
    named ← put_city w (if i % 2 == 1 then bei_jing else shang_hai)
    let filled = record named { temperature = F.over_pi i; relhumidity = F.of_int i }
    p' ← publish p filled
    done (filled, p')

  unfoldable pub puber_rounds :
      ℕ → ℕ → WeatherInfo Float × WeatherPuber → Outcome (WeatherInfo Float × WeatherPuber)
  puber_rounds i zero s = done s
  puber_rounds i (suc n) s = puber_round i s >>= puber_rounds (i + 1) n
