-- ===== src/Pic/SpentSet.antt =====
-- packages/pic-vouchers/src/sip_pic/spentset.py: the table of spent keys. SQLite's table with a
-- primary key is the list of its rows; each method is one atomic statement.
use sovereign_inference.Base.{
  String, Bool, true, false, List, [], ◌∷◌, contains, discard, if◌then◌else◌,
}

abbrev pub SpentSet : Type 0
SpentSet = List String

unfoldable pub is_spent : SpentSet → String → Bool
unfolding contains
is_spent spent key = contains spent key

-- `INSERT`: refused with IntegrityError, and so false, if the key is there.
unfoldable pub spend : SpentSet → String → Bool × SpentSet
unfolding contains
spend spent key = if contains spent key then (false, spent) else (true, key ∷ spent)

-- `DELETE`
unfoldable pub unspend : SpentSet → String → SpentSet
unfolding discard
unspend spent key = discard key spent

-- `for done in spent_ids: spent_set.unspend(done)`
unfoldable pub unspend_all : SpentSet → List String → SpentSet
unfolding unspend
unspend_all spent [] = spent
unspend_all spent (key ∷ keys) = unspend_all (unspend spent key) keys
