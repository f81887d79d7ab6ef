-- ===== src/Examples/Sweep.antt =====
-- nawat/lab/sweep.py on two learning rates.
use nawat.Prelude.{◌≡◌, refl, keep, map}
use nawat.Prelude.Text.{text, split, strip, is_space}
use nawat.Sweep.{split_values}
use nawat.Sweep.Values.{non_empty, split_values-split}

split_values-split_example :
    split_values (text "1e-4, 2e-4,")
    ≡ keep non_empty (map (strip is_space) (split b',' (text "1e-4, 2e-4,")))
split_values-split_example = split_values-split (text "1e-4, 2e-4,") refl
