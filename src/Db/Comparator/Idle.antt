-- ===== src/Db/Comparator/Idle.antt =====
-- A comparator that leaves its arguments unchanged, and the bytewise one.
use rabbit_log_db.Base.{arith, Bytes, codes}
use rabbit_log_db.Db.Comparator.{Comparator, TotalOrder, Shortens}
use rabbit_log_db.Db.Slice.{of_string, to_string}
use rabbit_log_db.Db.Slice.Order.{IsValid, lex, lex-flip, lex_refl, lex_trans}

-- The comparator with the advanced functions replaced by ones that do nothing.
unfoldable pub idle : Comparator → Comparator
idle c = record c {
  find_shortest_separator = λ start limit. start;
  find_short_successor = λ key. key;
}

pub of_string-IsValid : (s : Bytes) → IsValid (of_string s)
unfolding of_string
of_string-IsValid s = omega arith

-- "An implementation of this method that does nothing is correct": over any total order, leaving the
-- key and the start unchanged keeps what the comments promise of the advanced functions.
pub idle-Shortens : (c : Comparator) → TotalOrder c → TotalOrder (idle c) × Shortens (idle c)
unfolding idle
idle-Shortens c t = (
  record { flips = t.flips; equals = t.equals; below = t.below },
  record {
    separates =
        λ start limit v h. ((λ e. cc (t.equals (of_string start) (of_string-IsValid start))), h);
    succeeds = λ key e. cc (t.equals (of_string key) (of_string-IsValid key));
  },
)

-- "Lexicographic byte-wise ordering", as `BytewiseComparator` promises.
unfoldable pub bytewise : Comparator
bytewise = record {
  compare = λ a b. lex (to_string a) (to_string b);
  name = codes "leveldb.BytewiseComparator";
  find_shortest_separator = λ start limit. start;
  find_short_successor = λ key. key;
}

pub bytewise-TotalOrder : TotalOrder bytewise
unfolding bytewise
bytewise-TotalOrder = record {
  flips = λ a b v w. lex-flip (to_string a) (to_string b);
  equals = λ a v. lex_refl (to_string a);
  below = λ x y z u v w h k. lex_trans (to_string x) (to_string y) (to_string z) h k;
}
