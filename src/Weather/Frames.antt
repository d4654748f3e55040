-- ===== src/Weather/Frames.antt =====
-- The frames of the weather reports.
use sim_tools.Base.{
  ◌<◌, ◌^◌, ◌≡◌, refl, [], ◌∷◌, ◌++◌, length, length-append, take-length, arith, List,
}
use sim_tools.Base.Bytes.{Bytes, le_bytes, length-le_bytes, from_le-le_bytes}
use sim_tools.Base.Outcome.{done}
use sim_tools.Core.Layout.{next_member}
use sim_tools.Weather.Report.{
  Floats, WeatherInfo, Shown, WeatherSuber, weather_info_size, print_weather_info, encode_weather,
  decode_weather, subscribe,
}

module _ (F : Floats) where
  open F use {Float, to_bytes}

  pub record IsInfo (w : WeatherInfo Float) : Type 0 where
    pub name_ok : length w.city_name ≡ 256
    pub length_ok : w.city_name_length < 2 ^ 32

  decode-encode_weather :
      (w : WeatherInfo Float) → IsInfo w → decode_weather F (encode_weather F w) ≡ w
  unfolding decode_weather encode_weather
  decode-encode_weather w h =
      let last = to_bytes w.relhumidity in
      let r2 = to_bytes w.temperature ++ last in
      let r1 = le_bytes 4 w.city_name_length ++ r2 in
      let p1 = next_member 256 w.city_name r1 h.name_ok in
      let p2 = next_member 4 (le_bytes 4 w.city_name_length) r2 (length-le_bytes 4 _) in
      let p3 = next_member 4 (to_bytes w.temperature) last (F.to_bytes-length _) in
      let p4 = take-length 4 last (omega (arith, F.to_bytes-length w.relhumidity)) in
      rw (p1.0, p1.1, p2.0, p2.1, p3.0, p3.1, p4)
        (rw (
          from_le-le_bytes 4 w.city_name_length h.length_ok,
          F.of_bytes-to_bytes w.temperature,
          F.of_bytes-to_bytes w.relhumidity,
        ))

  length-encode_weather : (w : WeatherInfo Float) → IsInfo w → length (encode_weather F w) ≡ 268
  unfolding encode_weather
  length-encode_weather w h =
      simp (length-append, length-le_bytes, F.to_bytes-length, h.name_ok) refl

  -- A subscriber prints the report that has been sent.
  pub subscribe-encode_weather :
      (s : WeatherSuber Float) (w : WeatherInfo Float) (x : Shown Float) (rest : List Bytes)
      → IsInfo w
      → print_weather_info w ≡ done x
      → subscribe F (record s { input = encode_weather F w ∷ rest })
        ≡ done (record s { input = rest; shown = s.shown ++ x ∷ [] })
  unfolding subscribe weather_info_size
  subscribe-encode_weather s w x rest h e =
      rw (length-encode_weather w h, decode-encode_weather w h, e) refl
