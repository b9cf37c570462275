-- ===== src/Tests/Releases.antt =====
-- The comparison of versions at a concrete input.
use orkai.Prelude.{◌≡◌, refl, true, false}
use orkai.Versions.{should_update, parse, newer}
use orkai.Versions.Order.{should_update-one_way}

offered : should_update "v1.10.0" "v1.9.2" ≡ true
unfolding should_update parse newer
offered = refl

release_offered : should_update "v2.0.0" "v2.0.0-rc.1" ≡ true
unfolding should_update parse newer
release_offered = refl

should_update-one_way_example : should_update "v1.9.2" "v1.10.0" ≡ false
should_update-one_way_example = should_update-one_way "v1.10.0" "v1.9.2" offered
