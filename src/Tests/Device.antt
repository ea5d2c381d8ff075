-- ===== src/Tests/Device.antt =====
-- A device with other firmware, none for a while, and one that sends a report and is unplugged.
use puddle.Base.{true, some, List, [], ◌∷◌}
use puddle.Hid.Device.{Round, absent, found, reset_failed}

abbrev rounds : List Round
rounds =
    found (record {
      opens = true;
      info = some (1 ∷ 9 ∷ 0 ∷ 0 ∷ [], 4);
      accepts = λ written report. true;
      cycles = [];
    })
    ∷ absent
    ∷ found (record {
      opens = true;
      info = some (1 ∷ 1 ∷ 0 ∷ 0 ∷ [], 4);
      accepts = λ written report. true;
      cycles = record { buf = 1 ∷ 7 ∷ 0 ∷ 0 ∷ 0 ∷ 0 ∷ 0 ∷ []; len = 7; outbound = [] } ∷ [];
    })
    ∷ reset_failed
    ∷ []
