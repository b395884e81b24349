-- ===== src/Examples/Circuits.antt =====
-- IDs of circuits on an example.
use su_pa.Base.{Text, codes, ◌+◌, ◌≡◌, refl, List, [], ◌∷◌, ◌++◌, some, length}
use su_pa.Nrm.Nso.{circuit_number, provision_circuits}
use su_pa.Nrm.Nso.Distinct.{HasNumber, AreDistinct, provision_circuits-AreDistinct}
use su_pa.Util.Nsi.{split}
use su_pa.Util.Vlan.Parse.{int}

abbrev stored_id : Text
stored_id = codes "NSI_L2VPN_10041"

stored_id-HasNumber : HasNumber stored_id
unfolding circuit_number split int
stored_id-HasNumber = (10041, refl)

provision_circuits-AreDistinct_example :
    (ids' : List Text) × (provision_circuits
        (codes "NSI_L2VPN" ++ b'_' ∷ [])
        10000
        3
        (stored_id ∷ [])
      ≡ some ids')
    × AreDistinct ids'
    × (length ids' ≡ 3 + 1)
provision_circuits-AreDistinct_example =
    provision_circuits-AreDistinct (codes "NSI_L2VPN") 10000 3 (stored_id ∷ [])
      (stored_id-HasNumber, tt) (tt, tt)
