-- ===== src/Tests/Commands.antt =====
-- The commands on hashes, sets and lists, at concrete inputs.
use bitcask_go.Common.{
  ◌≡◌, ◌+◌, ◌^◌, ◌-◌, refl, ap, true, not, some, [], ◌∷◌, Bytes, length, ◌==◌, if◌then◌else◌, arith,
}
use bitcask_go.Common.Assoc.{Assoc, lookup, insert, remove}
use bitcask_go.Common.Assoc.Size.{present, insert-some}
use bitcask_go.Common.Eq.{bytes_eq}
use bitcask_go.Common.Exec.Post.{Post}
use bitcask_go.Common.Result.{ok}
use bitcask_go.Db.Refine.{Contents, Refines, answer, update}
use bitcask_go.Redis.Meta.{Metadata, encode_metadata, hash_type, set_type, list_type}
use bitcask_go.Redis.Types.{new_metadata, metadata_of}
use bitcask_go.Redis.Part.Stands.{part_key, Finds, IsParts, new-IsParts, add-IsParts}
use bitcask_go.Redis.Part.Commands.{IsReady, Stands, After, IsParts-Finds, metadata-IsStorable}
use bitcask_go.Redis.Part.Writes.{IsKeys, some_part, part-IsStorable}
use bitcask_go.Redis.Hashes.{field_key, hset, hget, hdel}
use bitcask_go.Redis.Hashes.Writes.{hset-Post, hdel-Post, hget-IsParts, hset-hget}
use bitcask_go.Redis.Sets.{member_key, sadd}
use bitcask_go.Redis.Sets.Writes.{sadd-Post}
use bitcask_go.Redis.Lists.{
  element_key, pushed_marks, push_index, pop_index, push_inner, pop_inner, lall,
}
use bitcask_go.Redis.Lists.Run.{IsList, new-IsList, pushed}
use bitcask_go.Redis.Lists.Writes.{Halfway, IsList-Finds, push_inner-Post, pop_inner-Post}
use bitcask_go.Redis.Lists.Reads.{placed, lall-IsList}
use bitcask_go.Tests.Database.{fresh, nothing, fresh-Refines, fresh-IsWf, a_key, a_value}
use bitcask_go.Redis.Lists.Ends.{push-IsList}
use bitcask_go.Redis.Part.{grown}
use bitcask_go.Index.ListIndex.{list_index}
use bitcask_go.Db.State.{Db, Options}
use bitcask_go.Index.{b_plus_tree}
use bitcask_go.Varint.LittleEndian.{put_uint64, length-le_bytes}
use bitcask_go.Tests.Stored.{IsPairs, Both, two_puts, two_puts-Both}
use bitcask_go.Tests.Ranges.{ranging, ranging-IsRanging}

fresh-IsReady : IsReady fresh nothing 3
fresh-IsReady = record {
  refines = fresh-Refines;
  wf = fresh-IsWf;
  spare = omega arith;
  in_memory = refl;
}

abbrev a_part : Bytes
a_part = b'f' ∷ []

a_part-IsKeys : IsKeys a_key a_part
a_part-IsKeys = record { some_key = refl; fits = omega arith }

abbrev no_parts : Assoc Bytes Bytes
no_parts = []

abbrev a_hash : Metadata
a_hash = new_metadata hash_type 100

abbrev a_set : Metadata
a_set = new_metadata set_type 100

abbrev a_list : Metadata
a_list = new_metadata list_type 100

a_hash-Finds : Finds nothing a_key hash_type 50 100 a_hash
unfolding metadata_of
a_hash-Finds = refl

a_set-Finds : Finds nothing a_key set_type 50 100 a_set
unfolding metadata_of
a_set-Finds = refl

a_list-Finds : Finds nothing a_key list_type 50 100 a_list
unfolding metadata_of
a_list-Finds = refl

a_hash-IsParts : IsParts hash_type nothing a_key a_hash []
a_hash-IsParts = new-IsParts hash_type 100 nothing a_key (omega arith) refl (λ p. refl)

a_set-IsParts : IsParts set_type nothing a_key a_set []
a_set-IsParts = new-IsParts set_type 100 nothing a_key (omega arith) refl (λ p. refl)

a_list-IsList : IsList nothing a_key a_list []
a_list-IsList = new-IsList nothing a_key 100 (omega arith)

hset-Post_example :
    Post
      (λ added db'.
        (added ≡ not (present (lookup a_part no_parts)))
        × Stands hash_type nothing a_key
            (field_key a_key a_hash a_part)
            a_hash
            (insert a_part a_value no_parts)
            3
            fresh
            db')
      (λ db'. Refines db' nothing)
      (hset ranging a_key a_part a_value 50 100 fresh)
unfolding new_metadata
hset-Post_example =
    hset-Post ranging fresh nothing a_key a_part a_value a_hash [] 50 100 ranging-IsRanging
      fresh-IsReady a_part-IsKeys (omega arith) (omega arith) a_hash-Finds a_hash-IsParts

hset-hget_example :
    Post
      (λ _ db'. hget a_key a_part 60 200 db' ≡ ok a_value)
      (λ db'. Refines db' nothing)
      (hset ranging a_key a_part a_value 50 100 fresh)
unfolding new_metadata
hset-hget_example =
    hset-hget ranging fresh nothing a_key a_part a_value a_hash [] 50 100 60 200 ranging-IsRanging
      fresh-IsReady a_part-IsKeys (omega arith) (omega arith) a_hash-Finds a_hash-IsParts refl

member_is_added :
    Post
      (λ added db'.
        (added ≡ not (present (lookup a_part no_parts)))
        × (if added
            then Stands set_type nothing a_key
                (member_key a_key a_set a_part)
                a_set
                (insert a_part [] no_parts)
                3
                fresh
                db'
            else db' ≡ fresh))
      (λ db'. Refines db' nothing)
      (sadd ranging a_key a_part 50 100 fresh)
unfolding new_metadata
member_is_added =
    sadd-Post ranging fresh nothing a_key a_part a_set [] 50 100 ranging-IsRanging fresh-IsReady
      a_part-IsKeys (omega arith) a_set-Finds a_set-IsParts

push_inner-Post_example :
    Post
      (λ size db'.
        (size ≡ length {A = Bytes} [] + 1)
        × After
            (λ c md'. IsList c a_key md' (pushed true a_value []))
            nothing
            a_key
            (element_key a_key a_list (push_index true a_list))
            a_list
            3
            fresh
            db')
      (λ db'. Refines db' nothing)
      (push_inner ranging a_key a_value true 50 100 fresh)
unfolding new_metadata
push_inner-Post_example =
    push_inner-Post ranging fresh nothing a_key a_value a_list [] true 50 100 ranging-IsRanging
      fresh-IsReady refl (omega arith) (omega arith) a_list-Finds a_list-IsList
      (record { before = omega arith; after = omega arith; counted = omega arith })

-- A hash of one field, in a database after two calls of Put.
abbrev one_field : Metadata
one_field = grown a_hash

abbrev field_db_key : Bytes
field_db_key = part_key a_key 100 a_part

one_field-IsParts :
    IsParts hash_type
      (update (update nothing a_key (encode_metadata one_field)) field_db_key a_value)
      a_key
      one_field
      (insert a_part a_value no_parts)
unfolding new_metadata lookup
one_field-IsParts =
    add-IsParts hash_type nothing a_key a_hash [] a_hash-IsParts a_part a_value refl (omega arith)

one_field-IsPairs : IsPairs a_key (encode_metadata one_field) field_db_key a_value
unfolding new_metadata
one_field-IsPairs = record {
  some_first = refl;
  some_second = some_part a_key 100 a_part;
  first = metadata-IsStorable a_key one_field (omega arith) (omega arith);
  second = part-IsStorable a_key a_part 100 a_value a_part-IsKeys (omega arith);
}

one_field-Finds :
    Finds
      (update (update nothing a_key (encode_metadata one_field)) field_db_key a_value)
      a_key
      hash_type
      60
      200
      one_field
unfolding new_metadata
one_field-Finds =
    IsParts-Finds hash_type
      (update (update nothing a_key (encode_metadata one_field)) field_db_key a_value) a_key
      one_field (insert a_part a_value no_parts) 60 200 one_field-IsParts
      (insert-some a_part a_value no_parts) refl

abbrev field_db : Db list_index
field_db = two_puts a_key (encode_metadata one_field) field_db_key a_value

field_is_read : hget a_key a_part 60 200 field_db ≡ (
    if length (insert a_part a_value no_parts) == 0
    then ok []
    else answer (lookup a_part (insert a_part a_value no_parts)))
field_is_read =
    hget-IsParts field_db
      (update (update nothing a_key (encode_metadata one_field)) field_db_key a_value) a_key a_part
      one_field (insert a_part a_value no_parts) 60 200
      (two_puts-Both a_key (encode_metadata one_field) field_db_key a_value
        one_field-IsPairs).refines
      refl one_field-Finds one_field-IsParts

abbrev field_contents : Contents
field_contents = update (update nothing a_key (encode_metadata one_field)) field_db_key a_value

field_db-IsReady : IsReady field_db field_contents 3
field_db-IsReady =
    let both =
      two_puts-Both a_key (encode_metadata one_field) field_db_key a_value one_field-IsPairs in
    record {
      refines = both.refines;
      wf = both.wf;
      spare = both.spare;
      in_memory = ap (λ (o : Options). o.indexer_type == b_plus_tree) both.options;
    }

hdel-Post_example :
    Post
      (λ deleted db'.
        (deleted ≡ present (lookup a_part (insert a_part a_value no_parts)))
        × (if deleted
            then Stands hash_type field_contents a_key
                (field_key a_key one_field a_part)
                one_field
                (remove a_part (insert a_part a_value no_parts))
                3
                field_db
                db'
            else db' ≡ field_db))
      (λ db'. Refines db' field_contents)
      (hdel ranging a_key a_part 60 200 field_db)
hdel-Post_example =
    hdel-Post ranging field_db field_contents a_key a_part one_field
      (insert a_part a_value no_parts) 60 200 ranging-IsRanging field_db-IsReady a_part-IsKeys
      one_field-Finds one_field-IsParts

-- A list of one element.
abbrev one_element : Metadata
one_element = pushed_marks true (grown a_list)

abbrev element_db_key : Bytes
element_db_key = part_key a_key 100 (put_uint64 (2 ^ 63 - 2))

abbrev element_contents : Contents
element_contents =
    update (update nothing a_key (encode_metadata one_element)) element_db_key a_value

one_element-IsList : IsList element_contents a_key one_element (pushed true a_value [])
unfolding new_metadata
one_element-IsList =
    push-IsList nothing a_key a_value a_list [] true a_list-IsList
      (record { before = omega arith; after = omega arith; counted = omega arith })

one_element-IsPairs : IsPairs a_key (encode_metadata one_element) element_db_key a_value
unfolding new_metadata
one_element-IsPairs = record {
  some_first = refl;
  some_second = some_part a_key 100 (put_uint64 (2 ^ 63 - 2));
  first = metadata-IsStorable a_key one_element (omega arith) (omega arith);
  second =
      part-IsStorable a_key (put_uint64 (2 ^ 63 - 2)) 100 a_value
        (record { some_key = refl; fits = omega (arith, length-le_bytes 8 (2 ^ 63 - 2)) })
        (omega arith);
}

one_element-Finds : Finds element_contents a_key list_type 60 200 one_element
unfolding new_metadata
one_element-Finds =
    IsList-Finds element_contents a_key one_element (pushed true a_value []) 60 200
      one_element-IsList (omega arith) refl

abbrev element_db : Db list_index
element_db = two_puts a_key (encode_metadata one_element) element_db_key a_value

element_db-Both : Both a_key (encode_metadata one_element) element_db_key a_value
element_db-Both =
    two_puts-Both a_key (encode_metadata one_element) element_db_key a_value one_element-IsPairs

pop_inner-Post_example :
    Post
      (λ popped db'.
        (popped ≡ some a_value)
        × After
            (λ c md'. IsList c a_key md' [])
            element_contents
            a_key
            (element_key a_key one_element (pop_index true one_element))
            one_element
            2
            element_db
            db')
      (Halfway element_contents (element_key a_key one_element (pop_index true one_element)))
      (pop_inner a_key true 60 200 element_db)
pop_inner-Post_example =
    pop_inner-Post element_db element_contents a_key a_value one_element [] true 60 200
      element_db-Both.refines element_db-Both.wf (omega (arith, element_db-Both.spare)) refl
      (omega arith) one_element-Finds one_element-IsList

lall-IsList_example : lall a_key 60 200 element_db ≡ ok (placed 0 (pushed true a_value []))
lall-IsList_example =
    lall-IsList element_db element_contents a_key one_element (pushed true a_value []) 60 200
      element_db-Both.refines refl one_element-Finds one_element-IsList
