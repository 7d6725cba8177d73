-- ===== src/Tracer/Tests.antt =====
-- A pixel whose channels have four bits.
use xbdm_gdb_bridge.Prelude.{[], refl, ◌∷◌, ◌≡◌}
use xbdm_gdb_bridge.Tracer.Image.{a4r4g4b4_to_rgba888}

-- White in four bits for each channel does not become white.
nearly_white : a4r4g4b4_to_rgba888 (255 ∷ 255 ∷ []) ≡ 247 ∷ 247 ∷ 247 ∷ 247 ∷ []
unfolding a4r4g4b4_to_rgba888
nearly_white = refl
