-- ===== src/Guardian/Tanks.antt =====
-- The values that `handle` of guardian_ast_server.py sets up for a connection.
use conpot.Prelude.{ℕ, ◌+◌}
use conpot.Prelude.Bytes.{Bytes, codes, Result, ok, ◌>>=◌}
use conpot.Prelude.Text.{ljust}

pub record Tank : Type 0 where
  pub product : Bytes
  pub vol : ℕ
  pub voltc : ℕ
  pub ullage : Bytes
  pub height : Bytes
  pub h2o : Bytes
  pub temp : Bytes

pub record Tanks : Type 0 where
  pub tank1 : Tank
  pub tank2 : Tank
  pub tank3 : Tank
  pub tank4 : Tank
  pub station : Bytes

-- What stands behind a connection. `text`, `number` and `shown` are `get_value` of the databus where a
-- text or a number is expected, and `str` of its value; `randint` has the number of the call first.
-- `plus` is `str(float(text) + n)` and `minus` is `str(float(text) - n)`; the times are as printed.
pub record World : Type 0 where
  pub text : Bytes → Result Bytes
  pub number : Bytes → Result ℕ
  pub shown : Bytes → Result Bytes
  pub randint : ℕ → (low high : ℕ) → ℕ
  pub plus : Bytes → ℕ → Result Bytes
  pub minus : Bytes → ℕ → Result Bytes
  pub current_time : Bytes
  pub fill_start : Bytes
  pub fill_stop : Bytes

module _ (w : World) where
  -- `get_value(key).ljust(22)`
  unfoldable pub product_name : Bytes → Result Bytes
  product_name key = do name ← w.text key; ok (ljust 22 b' ' name)

  -- `str(get_value(key)).ljust(width, '0')`
  unfoldable pub padded : ℕ → Bytes → Result Bytes
  padded width key = do value ← w.shown key; ok (ljust width b'0' value)

  -- The reads at the head of `handle`, in their order; the fourth ullage is the third tank's.
  unfoldable pub read_tanks : Result Tanks
  unfolding product_name padded
  read_tanks = do
    product1 ← product_name (codes "product1")
    product2 ← product_name (codes "product2")
    product3 ← product_name (codes "product3")
    product4 ← product_name (codes "product4")
    vol1 ← w.number (codes "vol1")
    vol2 ← w.number (codes "vol2")
    vol3 ← w.number (codes "vol3")
    vol4 ← w.number (codes "vol4")
    ullage1 ← w.shown (codes "ullage1")
    ullage2 ← w.shown (codes "ullage2")
    ullage3 ← w.shown (codes "ullage3")
    ullage4 ← w.shown (codes "ullage3")
    height1 ← padded 5 (codes "height1")
    height2 ← padded 5 (codes "height2")
    height3 ← padded 5 (codes "height3")
    height4 ← padded 5 (codes "height4")
    h2o1 ← padded 4 (codes "h2o1")
    h2o2 ← padded 4 (codes "h2o2")
    h2o3 ← padded 4 (codes "h2o3")
    h2o4 ← padded 4 (codes "h2o4")
    temp1 ← padded 5 (codes "temp1")
    temp2 ← padded 5 (codes "temp2")
    temp3 ← padded 5 (codes "temp3")
    temp4 ← padded 5 (codes "temp4")
    station ← w.text (codes "station_name")
    ok (record {
      tank1 = record {
        product = product1;
        vol = vol1;
        voltc = w.randint 1 vol1 (vol1 + 200);
        ullage = ullage1;
        height = height1;
        h2o = h2o1;
        temp = temp1;
      };
      tank2 = record {
        product = product2;
        vol = vol2;
        voltc = w.randint 2 vol2 (vol2 + 200);
        ullage = ullage2;
        height = height2;
        h2o = h2o2;
        temp = temp2;
      };
      tank3 = record {
        product = product3;
        vol = vol3;
        voltc = w.randint 3 vol3 (vol3 + 200);
        ullage = ullage3;
        height = height3;
        h2o = h2o3;
        temp = temp3;
      };
      tank4 = record {
        product = product4;
        vol = vol4;
        voltc = w.randint 4 vol4 (vol4 + 200);
        ullage = ullage4;
        height = height4;
        h2o = h2o4;
        temp = temp4;
      };
      station = station;
    })
