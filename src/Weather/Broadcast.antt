-- ===== src/Weather/Broadcast.antt =====
-- What the subscribers of the weather reports print.
use sim_tools.Base.{
  ℕ, zero, suc, ◌+◌, ◌≡◌, refl, ◌≢◌, ap, sym, ◌∙◌, Bool, true, false, List, [], ◌∷◌, ◌++◌,
  append_assoc, append-nil, map, if◌then◌else◌, length, length-drop, drop, Bool-cases, inl, inr,
  arith,
}
use sim_tools.Base.Bytes.{Bytes}
use sim_tools.Base.Outcome.{done}
use sim_tools.Weather.Report.{
  Floats, WeatherInfo, Shown, WeatherPuber, WeatherSuber, encode_weather, make_suber, set_sub_topic,
  suber_rounds, puber_rounds,
}
use sim_tools.Weather.Frames.{subscribe-encode_weather}
use sim_tools.Weather.Rounds.{
  is_odd, city, report, ninth, IsBroadcast, IsReady, puber_rounds-IsBroadcast,
}

-- The frames that a subscribed socket receives, of those that are sent.
abbrev pub delivered : (Bytes → Bytes → Bool) → Bytes → List Bytes → List Bytes
delivered passes topic [] = []
delivered passes topic (f ∷ fs) =
    let rest = delivered passes topic fs in if passes topic f then f ∷ rest else rest

abbrev same : Bool → Bool → Bool
same true odd = odd
same false true = false
same false false = true

module _ (F : Floats) where
  open F use {Float}

  -- The reports on BeiJing, or on ShangHai, of so many rounds from i on.
  unfoldable pub reports : Bool → ℕ → ℕ → ℕ → List (Shown Float)
  reports mine i c zero = []
  reports mine i c (suc n) =
      let rest = reports mine (i + 1) (ninth F i c) n in
      if same mine (is_odd i) then report F i c ∷ rest else rest

  -- `passes` is the test of ZMQ_SUBSCRIBE, which the frames with the topic in front pass.
  module _ (passes : Bytes → Bytes → Bool)
      (accepts : (topic rest : Bytes) → passes topic (topic ++ rest) ≡ true)
      (rejects : (x y : ℕ) (topic rest : Bytes)
        → x ≢ y
        → passes (x ∷ topic) (y ∷ rest) ≡ false) where
    passes-city :
        (mine odd : Bool) (rest : Bytes) → passes (city mine) (city odd ++ rest) ≡ same mine odd
    passes-city true true rest = accepts (city true) rest
    passes-city false false rest = accepts (city false) rest
    passes-city true false rest = rejects 66 83 _ _ (λ e. absurd (omega arith))
    passes-city false true rest = rejects 83 66 _ _ (λ e. absurd (omega arith))

    passes-encode_weather :
        (mine odd : Bool) (v : WeatherInfo Float) (tail : Bytes)
        → v.city_name ≡ city odd ++ tail
        → passes (city mine) (encode_weather F v) ≡ same mine odd
    unfolding encode_weather
    passes-encode_weather mine odd v tail name = rw (name, append_assoc) (passes-city mine odd _)

    reads :
        (mine : Bool) (n i c : ℕ) (ws : List (WeatherInfo Float)) (s : WeatherSuber Float)
        → IsBroadcast F i c n ws
        → let frames = delivered passes (city mine) (map (encode_weather F) ws) in
          suber_rounds F (length frames) (record s { input = frames })
          ≡ done (record s { input = []; shown = s.shown ++ reports mine i c n })
    unfolding suber_rounds reports
    reads mine zero i c ws s h = rw (h, append-nil s.shown) refl
    reads mine (suc n) i c ws s (v, vs, e, ok, printed, (tail, name), more) =
        let test = passes-encode_weather mine (is_odd i) v tail name in
        elim (Bool-cases (same mine (is_odd i))) [
          | inl wanted ↦
              rw
                (
                  e,
                  test ∙ wanted,
                  wanted,
                  subscribe-encode_weather F s v (report F i c)
                      (delivered passes (city mine) (map (encode_weather F) vs)) ok printed,
                  reads mine n (i + 1) (ninth F i c) vs
                      (record s { shown = s.shown ++ report F i c ∷ [] }) more,
                  append_assoc,
                )
                refl
          | inr other ↦ rw (e, test ∙ other, other) (reads mine n (i + 1) (ninth F i c) vs s more)
        ]

    -- What stands behind the name of ShangHai in the buffer at first.
    abbrev first_byte : Bytes → ℕ
    first_byte [] = 0
    first_byte (c ∷ _) = c

    abbrev pub left_over : Bytes → ℕ
    left_over b = first_byte (drop 8 b)

    buffer-IsReady : (b : Bytes) → length b ≡ 256 → IsReady F 0 (left_over b) b
    buffer-IsReady b h =
        let size = length-drop 8 b in
        elim (drop 8 b) as (λ d. drop 8 b ≡ d → length d ≡ 248 → IsReady F 0 (left_over b) b) [
          | [] ↦ λ e k. absurd (omega arith)
          | x ∷ [] ↦ λ e k. absurd (omega arith)
          | x ∷ y ∷ rest ↦ λ e k.
              inl (
                refl,
                h,
                (y, rest, e ∙ ap (λ c. c ∷ y ∷ rest) (sym (ap first_byte e)), omega arith),
              )
        ]
          refl (omega (arith, size, h))

    -- So many rounds of weather_pub's loop, from an uninitialised WeatherInfo, succeed, and a subscriber
    -- to BeiJing or to ShangHai that receives what has its topic in front prints, without a fault, the
    -- reports on its city: the odd rounds, as BeiJingi, or the even rounds, as ShangHai, the first with
    -- the byte behind the name that the buffer had at first.
    pub puber_rounds-reports :
        (mine : Bool) (n : ℕ) (w : WeatherInfo Float)
        → length w.city_name ≡ 256
        → (w' : WeatherInfo Float) × (p : WeatherPuber) × (s : WeatherSuber Float) × (puber_rounds F
              0 n
              (w, record { sent = [] })
            ≡ done (w', p))
          × (let frames = delivered passes (city mine) p.sent in
              suber_rounds F (length frames) (record (make_suber (city mine)) { input = frames })
              ≡ done s)
          × (s.shown ≡ reports mine 0 (left_over w.city_name) n)
    unfolding make_suber set_sub_topic
    puber_rounds-reports mine n w h =
        let (w', ws, e, broadcast) =
          puber_rounds-IsBroadcast F n 0 (left_over w.city_name) w (record { sent = [] })
            (buffer-IsReady w.city_name h) in
        (
          w',
          _,
          _,
          e,
          reads mine n 0 (left_over w.city_name) ws (make_suber (city mine)) broadcast,
          refl,
        )
