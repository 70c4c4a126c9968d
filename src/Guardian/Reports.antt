-- ===== src/Guardian/Reports.antt =====
-- The five reports of guardian_ast_server.py, which are closed over the values of the connection.
use conpot.Prelude.{ℕ, ◌+◌, ◌-◌, leb, if◌then◌else◌, none, some, [], ◌∷◌}
use conpot.Prelude.Bytes.{Bytes, codes, Result, ok, err, value_error, ◌>>=◌}
use conpot.Prelude.Text.{decimal, concat, ℤ, pos, negsuc, int, str_int}
use conpot.Guardian.Tanks.{Tanks, World}

-- `a - b`
abbrev pub sub_ℕ : ℕ → ℕ → ℤ
sub_ℕ a b = if leb b a then pos (a - b) else negsuc (b - a - 1)

-- `str(int(text) + n)`
unfoldable pub add_text : Bytes → ℕ → Result Bytes
add_text text n = elim (int text) [
  | none ↦ err value_error
  | some (pos m) ↦ ok (decimal (m + n))
  | some (negsuc m) ↦ ok (str_int (sub_ℕ n (m + 1)))
]

module _ (w : World) (s : Tanks) where
  -- `I20100`
  unfoldable pub i20100 : Result Bytes
  i20100 = ok (
      concat (
        codes "\nI20100\n"
        ∷ w.current_time
        ∷ codes "\n\n"
        ∷ s.station
        ∷ codes "\n\n\n\nIN-TANK INVENTORY\n\n"
        ∷ codes "TANK PRODUCT             VOLUME TC VOLUME   ULLAGE   HEIGHT    WATER     TEMP"
        ∷ codes "\n  1  "
        ∷ s.tank1.product
        ∷ decimal s.tank1.vol
        ∷ codes "      "
        ∷ decimal s.tank1.voltc
        ∷ codes "     "
        ∷ s.tank1.ullage
        ∷ codes "    "
        ∷ s.tank1.height
        ∷ codes "     "
        ∷ s.tank1.h2o
        ∷ codes "    "
        ∷ s.tank1.temp
        ∷ codes "\n  2  "
        ∷ s.tank2.product
        ∷ decimal s.tank2.vol
        ∷ codes "      "
        ∷ decimal s.tank2.voltc
        ∷ codes "     "
        ∷ s.tank2.ullage
        ∷ codes "    "
        ∷ s.tank2.height
        ∷ codes "     "
        ∷ s.tank2.h2o
        ∷ codes "    "
        ∷ s.tank2.temp
        ∷ codes "\n  3  "
        ∷ s.tank3.product
        ∷ decimal s.tank3.vol
        ∷ codes "      "
        ∷ decimal s.tank3.voltc
        ∷ codes "     "
        ∷ s.tank3.ullage
        ∷ codes "    "
        ∷ s.tank3.height
        ∷ codes "     "
        ∷ s.tank3.h2o
        ∷ codes "    "
        ∷ s.tank3.temp
        ∷ codes "\n  4  "
        ∷ s.tank4.product
        ∷ decimal s.tank4.vol
        ∷ codes "      "
        ∷ decimal s.tank4.voltc
        ∷ codes "     "
        ∷ s.tank4.ullage
        ∷ codes "    "
        ∷ s.tank4.height
        ∷ codes "     "
        ∷ s.tank4.h2o
        ∷ codes "    "
        ∷ s.tank4.temp
        ∷ codes "\n"
        ∷ []))

  -- `I20200`
  unfoldable pub i20200 : Result Bytes
  unfolding add_text
  i20200 = do
    height ← w.minus s.tank1.height 23
    ok (
        concat (
          codes "\nI20200\n"
          ∷ w.current_time
          ∷ codes "\n\n"
          ∷ s.station
          ∷ codes "\n\n\n\nDELIVERY REPORT\n\n"
          ∷ codes "T 1:"
          ∷ s.tank1.product
          ∷ codes
              "\nINCREASE   DATE / TIME             GALLONS TC GALLONS WATER  TEMP DEG F  HEIGHT\n\n"
          ∷ codes "      END: "
          ∷ w.fill_stop
          ∷ codes "         "
          ∷ decimal (s.tank1.vol + 300)
          ∷ codes "       "
          ∷ decimal (s.tank1.voltc + 300)
          ∷ codes "   "
          ∷ s.tank1.h2o
          ∷ codes "      "
          ∷ s.tank1.temp
          ∷ codes "    "
          ∷ s.tank1.height
          ∷ codes "\n"
          ∷ codes "    START: "
          ∷ w.fill_start
          ∷ codes "         "
          ∷ (str_int (sub_ℕ s.tank1.vol 300))
          ∷ codes "       "
          ∷ (str_int (sub_ℕ s.tank1.voltc 300))
          ∷ codes "   "
          ∷ s.tank1.h2o
          ∷ codes "      "
          ∷ s.tank1.temp
          ∷ codes "    "
          ∷ height
          ∷ codes "\n"
          ∷ codes "   AMOUNT:                          "
          ∷ decimal s.tank1.vol
          ∷ codes "       "
          ∷ decimal s.tank1.voltc
          ∷ codes "\n\n"
          ∷ []))

  -- `I20300`
  unfoldable pub i20300 : Result Bytes
  i20300 = ok (
      concat (
        codes "\nI20300\n"
        ∷ w.current_time
        ∷ codes "\n\n"
        ∷ s.station
        ∷ codes "\n\n\n"
        ∷ codes "TANK 1    "
        ∷ s.tank1.product
        ∷ codes "\n    TEST STATUS: OFF\nLEAK DATA NOT AVAILABLE ON THIS TANK\n\n"
        ∷ codes "TANK 2    "
        ∷ s.tank2.product
        ∷ codes "\n    TEST STATUS: OFF\nLEAK DATA NOT AVAILABLE ON THIS TANK\n\n"
        ∷ codes "TANK 3    "
        ∷ s.tank3.product
        ∷ codes "\n    TEST STATUS: OFF\nLEAK DATA NOT AVAILABLE ON THIS TANK\n\n"
        ∷ codes "TANK 4    "
        ∷ s.tank4.product
        ∷ codes "\n    TEST STATUS: OFF\nLEAK DATA NOT AVAILABLE ON THIS TANK\n\n"
        ∷ []))

  -- `I20400`
  unfoldable pub i20400 : Result Bytes
  unfolding add_text
  i20400 = do
    ullage ← add_text s.tank1.ullage 345
    height ← w.plus s.tank1.height 53
    ok (
        concat (
          codes "\nI20400\n"
          ∷ w.current_time
          ∷ codes "\n\n"
          ∷ s.station
          ∷ codes "\n\n\n\nSHIFT REPORT\n\n"
          ∷ codes "SHIFT 1 TIME: 12:00 AM\n\nTANK PRODUCT\n\n"
          ∷ codes "  1  "
          ∷ s.tank1.product
          ∷ codes " VOLUME TC VOLUME  ULLAGE  HEIGHT  WATER   TEMP\n"
          ∷ codes "SHIFT  1 STARTING VALUES      "
          ∷ decimal s.tank1.vol
          ∷ codes "     "
          ∷ decimal s.tank1.voltc
          ∷ codes "    "
          ∷ s.tank1.ullage
          ∷ codes "   "
          ∷ s.tank1.height
          ∷ codes "   "
          ∷ s.tank1.h2o
          ∷ codes "    "
          ∷ s.tank1.temp
          ∷ codes "\n"
          ∷ codes "         ENDING VALUES        "
          ∷ decimal (s.tank1.vol + 940)
          ∷ codes "     "
          ∷ decimal (s.tank1.voltc + 886)
          ∷ codes "    "
          ∷ ullage
          ∷ codes "   "
          ∷ height
          ∷ codes "  "
          ∷ s.tank1.h2o
          ∷ codes "    "
          ∷ s.tank1.temp
          ∷ codes "\n"
          ∷ codes "         DELIVERY VALUE          0\n"
          ∷ codes "         TOTALS                940\n\n"
          ∷ []))

  -- `I20500`
  unfoldable pub i20500 : Result Bytes
  i20500 = ok (
      concat (
        codes "\nI20500\n"
        ∷ w.current_time
        ∷ codes "\n\n\n"
        ∷ s.station
        ∷ codes "\n\n\n"
        ∷ codes "TANK   PRODUCT                 STATUS\n\n"
        ∷ codes "  1    "
        ∷ s.tank1.product
        ∷ codes "  NORMAL\n\n"
        ∷ codes "  2    "
        ∷ s.tank2.product
        ∷ codes "  HIGH WATER ALARM\n"
        ∷ codes "                               HIGH WATER WARNING\n\n"
        ∷ codes "  3    "
        ∷ s.tank3.product
        ∷ codes "  NORMAL\n\n"
        ∷ codes "  4    "
        ∷ s.tank4.product
        ∷ codes "  NORMAL\n\n"
        ∷ []))
