-- ===== src/Weather/Rounds.antt =====
-- The rounds of the publisher of weather reports.
use sim_tools.Base.{
  ℕ, zero, suc, ◌+◌, ◌%◌, ◌==◌, ◌==◌, ◌≡◌, refl, subst, Bool, List, [], ◌∷◌, ◌++◌, append_assoc,
  append-nil, map, if◌then◌else◌, length, drop, ◌⊎◌, inl, inr, arith,
}
use sim_tools.Base.Bytes.{Bytes}
use sim_tools.Base.Outcome.{done}
use sim_tools.Core.Text.{c_string}
use sim_tools.Weather.Report.{
  Floats, WeatherInfo, Shown, WeatherPuber, bei_jing, shang_hai, print_weather_info, encode_weather,
  put_city, publish, puber_round, puber_rounds,
}
use sim_tools.Weather.Frames.{IsInfo}

abbrev pub is_odd : ℕ → Bool
is_odd i = i % 2 == 1

abbrev pub city : Bool → Bytes
city odd = if odd then bei_jing else shang_hai

-- What a reader of C strings finds behind the name: the byte that was there, if it is no NUL.
abbrev pub behind : ℕ → Bytes
behind zero = []
behind (suc c) = suc c ∷ []

-- The buffer after a round for ShangHai, and after the round for BeiJing that follows.
abbrev shang_hai_buffer : ℕ → Bytes → Bytes
shang_hai_buffer c rest = shang_hai ++ c ∷ 0 ∷ rest

abbrev bei_jing_buffer : Bytes → Bytes
bei_jing_buffer rest = bei_jing ++ 105 ∷ 0 ∷ 0 ∷ rest

module _ (F : Floats) where
  open F use {Float}

  -- What round i reports, if c is the ninth byte of the buffer.
  abbrev pub report : ℕ → ℕ → Shown Float
  report i c = record {
    city = if is_odd i then bei_jing ++ 105 ∷ [] else shang_hai ++ behind c;
    code_length = if is_odd i then 8 else 9;
    temperature = F.over_pi i;
    relhumidity = F.of_int i;
  }

  abbrev pub ninth : ℕ → ℕ → ℕ
  ninth i c = if is_odd i then 0 else c

  -- The reports of so many rounds from i on.
  abbrev pub IsBroadcast : ℕ → ℕ → ℕ → List (WeatherInfo Float) → Type 0
  IsBroadcast i c zero ws = ws ≡ []
  IsBroadcast i c (suc n) ws =
      (v : WeatherInfo Float) × (vs : List (WeatherInfo Float)) × (ws ≡ v ∷ vs)
      × IsInfo F v
      × (print_weather_info v ≡ done (report i c))
      × ((tail : Bytes) × (v.city_name ≡ city (is_odd i) ++ tail))
      × IsBroadcast (i + 1) (ninth i c) n vs

  -- The buffer before round i.
  abbrev pub IsReady : ℕ → ℕ → Bytes → Type 0
  IsReady i c b =
      ((i % 2 ≡ 0)
        × (length b ≡ 256)
        × ((d : ℕ) × (rest : Bytes) × (drop 8 b ≡ c ∷ d ∷ rest) × (length rest ≡ 246)))
      ⊎ ((i % 2 ≡ 1) × ((rest : Bytes) × (b ≡ shang_hai_buffer c rest) × (length rest ≡ 246)))

  c_string-shang_hai :
      (c : ℕ) (rest : Bytes) → c_string (shang_hai_buffer c rest) ≡ done (shang_hai ++ behind c)
  unfolding c_string
  c_string-shang_hai zero rest = refl
  c_string-shang_hai (suc c) rest = refl

  abbrev filled : ℕ → Bytes → ℕ → WeatherInfo Float
  filled i name size = record {
    city_name = name;
    city_name_length = size;
    temperature = F.over_pi i;
    relhumidity = F.of_int i;
  }

  round_even :
      (i c d : ℕ) (rest : Bytes) (w : WeatherInfo Float) (p : WeatherPuber)
      → i % 2 ≡ 0
      → length w.city_name ≡ 256
      → drop 8 w.city_name ≡ c ∷ d ∷ rest
      → puber_round F i (w, p)
        ≡ done (
          filled i (shang_hai_buffer c rest) 9,
          record { sent = p.sent ++ encode_weather F (filled i (shang_hai_buffer c rest) 9) ∷ [] },
        )
  unfolding puber_round put_city publish print_weather_info
  round_even i c d rest w p even size cut = rw (even, size, cut, c_string-shang_hai c rest) refl

  round_odd :
      (i c : ℕ) (rest : Bytes) (w : WeatherInfo Float) (p : WeatherPuber)
      → i % 2 ≡ 1
      → length rest ≡ 246
      → w.city_name ≡ shang_hai_buffer c rest
      → puber_round F i (w, p)
        ≡ done (
          filled i (bei_jing_buffer rest) 8,
          record { sent = p.sent ++ encode_weather F (filled i (bei_jing_buffer rest) 8) ∷ [] },
        )
  unfolding puber_round put_city publish print_weather_info c_string
  round_odd i c rest w p odd size name = rw (odd, name, size) refl

  print_even :
      (i c : ℕ) (rest : Bytes)
      → i % 2 ≡ 0
      → print_weather_info (filled i (shang_hai_buffer c rest) 9) ≡ done (report i c)
  unfolding print_weather_info
  print_even i c rest even = rw (c_string-shang_hai c rest, even) refl

  print_odd :
      (i c : ℕ) (rest : Bytes)
      → i % 2 ≡ 1
      → print_weather_info (filled i (bei_jing_buffer rest) 8) ≡ done (report i c)
  unfolding print_weather_info c_string
  print_odd i c rest odd = rw odd refl

  -- So many rounds succeed, and publish the reports.
  pub puber_rounds-IsBroadcast :
      (n i c : ℕ) (w : WeatherInfo Float) (p : WeatherPuber)
      → IsReady i c w.city_name
      → (w' : WeatherInfo Float) × (ws : List (WeatherInfo Float)) × (puber_rounds F i n (w, p)
          ≡ done (w', record { sent = p.sent ++ map (encode_weather F) ws }))
        × IsBroadcast i c n ws
  unfolding puber_rounds
  puber_rounds-IsBroadcast zero i c w p ready = (w, [], rw (append-nil p.sent) refl, refl)
  puber_rounds-IsBroadcast (suc n) i c w p (inl (even, size, (d, rest, cut, long))) =
      let v = filled i (shang_hai_buffer c rest) 9 in
      let p1 : WeatherPuber = record { sent = p.sent ++ encode_weather F v ∷ [] } in
      let (w', ws, e, more) =
        puber_rounds-IsBroadcast n (i + 1) c v p1 (inr (omega arith, (rest, refl, long))) in
      let stays : c ≡ ninth i c = rw even refl in
      (
        w',
        v ∷ ws,
        rw (round_even i c d rest w p even size cut, e, append_assoc) refl,
        (
          v,
          ws,
          refl,
          record { name_ok = omega (arith, long); length_ok = omega arith },
          print_even i c rest even,
          rw even (c ∷ 0 ∷ rest, refl),
          subst (λ k. IsBroadcast (i + 1) k n ws) stays more,
        ),
      )
  puber_rounds-IsBroadcast (suc n) i c w p (inr (odd, (rest, name, long))) =
      let v = filled i (bei_jing_buffer rest) 8 in
      let p1 : WeatherPuber = record { sent = p.sent ++ encode_weather F v ∷ [] } in
      let (w', ws, e, more) =
        puber_rounds-IsBroadcast n (i + 1) 0 v p1
          (inl (omega arith, omega (arith, long), (0, rest, refl, long))) in
      let cleared : 0 ≡ ninth i c = rw odd refl in
      (
        w',
        v ∷ ws,
        rw (round_odd i c rest w p odd long name, e, append_assoc) refl,
        (
          v,
          ws,
          refl,
          record { name_ok = omega (arith, long); length_ok = omega arith },
          print_odd i c rest odd,
          rw odd (105 ∷ 0 ∷ 0 ∷ rest, refl),
          subst (λ k. IsBroadcast (i + 1) k n ws) cleared more,
        ),
      )
