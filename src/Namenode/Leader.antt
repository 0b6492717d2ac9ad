-- ===== src/Namenode/Leader.antt =====
-- Only the leader proposes.
use spkdfs.Prelude.{ℕ, ◌≡◌, true, false, [], List}
use spkdfs.Exn.{Text, message_exception, redirect_to_master}
use spkdfs.Text.{same_text}
use spkdfs.Json.{JsonLib}
use spkdfs.KvStore.{KvStore}
use spkdfs.Node.{Node, valid}
use spkdfs.RocksDb.{RocksDb}
use spkdfs.Reply.{replied, Response, try_catch, fail_response}
use spkdfs.Namenode.{PutRequest, PutOkRequest, check_leader, mkdir, rm, put, put_ok, update_lock}

abbrev pub redirect : Node → Response
redirect leader =
    fail_response (message_exception (record { code = redirect_to_master; message = leader.ip }))

-- On a namenode that is not the leader that it knows, no call that changes the tree proposes
-- anything, whatever its arguments and the database: each is answered with the leader's address.
pub redirect_to_leader :
    (S : KvStore) (J : JsonLib) (leader : Node) (my_ip : Text) (now : ℕ) (db : RocksDb S)
    (path : Text) (put_request : PutRequest) (put_ok_request : PutOkRequest) (paths : List Text)
    → valid leader ≡ true
    → same_text leader.ip my_ip ≡ false
    → (mkdir S J leader my_ip db path ≡ replied (redirect leader))
      × (rm S J leader my_ip db path ≡ replied (redirect leader))
      × (put S J leader my_ip now db put_request ≡ replied (redirect leader))
      × (put_ok S J leader my_ip db put_ok_request ≡ replied (redirect leader))
      × (update_lock S J leader my_ip now db paths ≡ ([], replied (redirect leader)))
unfolding check_leader mkdir rm put put_ok update_lock try_catch
redirect_to_leader S J leader my_ip now db path put_request put_ok_request paths v other =
    (rw (v, other), rw (v, other), rw (v, other), rw (v, other), rw (v, other))
