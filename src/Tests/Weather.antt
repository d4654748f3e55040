-- ===== src/Tests/Weather.antt =====
-- Two rounds of the weather reports, with numbers in place of floats.
use sim_tools.Base.{
  ℕ, ◌≡◌, refl, ◌≢◌, ◌==◌, ==_iff, Bool, true, false, ◌&&◌, [], ◌∷◌, ◌++◌, length, replicate,
  Bool-cases, inl, inr,
}
use sim_tools.Base.Bytes.{Bytes}
use sim_tools.Base.Outcome.{done}
use sim_tools.Weather.Report.{
  Floats, WeatherInfo, WeatherPuber, WeatherSuber, make_suber, suber_rounds, puber_rounds,
}
use sim_tools.Weather.Rounds.{city}
use sim_tools.Weather.Broadcast.{delivered, reports, puber_rounds-reports}

abbrev first : Bytes → ℕ
first [] = 0
first (x ∷ xs) = x

abbrev plain_floats : Floats
plain_floats = record {
  Float = ℕ;
  over_pi = λ i. i;
  of_int = λ i. i;
  to_bytes = λ x. x ∷ 0 ∷ 0 ∷ 0 ∷ [];
  of_bytes = first;
  to_bytes-length = λ x. refl;
  of_bytes-to_bytes = λ x. refl;
}

-- The first string is a prefix of the second.
abbrev is_prefix : Bytes → Bytes → Bool
is_prefix [] f = true
is_prefix (x ∷ topic) [] = false
is_prefix (x ∷ topic) (y ∷ f) = let rest = is_prefix topic f in (x == y) && rest

is_prefix-append : (topic rest : Bytes) → is_prefix topic (topic ++ rest) ≡ true
is_prefix-append [] rest = refl
is_prefix-append (x ∷ topic) rest = rw ((==_iff x x).1 refl, is_prefix-append topic rest) refl

is_prefix-other : (x y : ℕ) (topic rest : Bytes) → x ≢ y → is_prefix (x ∷ topic) (y ∷ rest) ≡ false
is_prefix-other x y topic rest h = elim (Bool-cases (x == y)) [
  | inl same ↦ absurd (h ((==_iff x y).0 same))
  | inr other ↦ rw other refl
]

abbrev fresh : WeatherInfo ℕ
fresh = record {
  city_name = replicate 256 7;
  city_name_length = 7;
  temperature = 7;
  relhumidity = 7;
}

-- What the subscriber to BeiJing prints after two rounds.
reports_run :
    reports plain_floats true 0 7 2
    ≡ record {
      city = 66 ∷ 101 ∷ 105 ∷ 74 ∷ 105 ∷ 110 ∷ 103 ∷ 105 ∷ [];
      code_length = 8;
      temperature = 1;
      relhumidity = 1;
    }
      ∷ []
unfolding reports
reports_run = refl

puber_rounds-reports_example :
    (w' : WeatherInfo ℕ) × (p : WeatherPuber) × (s : WeatherSuber ℕ) × (puber_rounds plain_floats 0
        2
        (fresh, record { sent = [] })
      ≡ done (w', p))
    × (let frames = delivered is_prefix (city true) p.sent in
        suber_rounds plain_floats
          (length frames)
          (record (make_suber (city true)) { input = frames })
        ≡ done s)
    × (s.shown ≡ reports plain_floats true 0 7 2)
puber_rounds-reports_example =
    puber_rounds-reports plain_floats is_prefix is_prefix-append is_prefix-other true 2 fresh refl
