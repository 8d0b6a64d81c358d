-- ===== src/Lib.antt =====
-- openrs is a game server. Clients connect over TCP; a session keeps what a client sent and what is
-- to be sent to it, and a decoder, an encoder and a packet handler, which are replaced together
-- when the client goes from the handshake to the download of the cache (grab) or to the login, and
-- from there to the world. This library models the way of a packet through the server, and the
-- parts of the game that keep state of their own, and proves what makes them correct.
--
-- Which file models what:
--   Base             shared helpers: Boolean tests, lists, the bytes of integers, and Base/Monad, the
--                    outcomes of a C++ call: a value, the return value false, an exception, undefined
--                    behaviour. M S A is a call that changes an object of type S.
--   Common/Buffer    common/include/openrs/common/io/buffer.h. A buffer is its bytes and its position;
--                    positions wrap at 2 ^ 64 (size_mod). GetData of n bytes is get_data n, and a pointer
--                    that is dereferenced is get_le or get_be.
--   Common/Buffer/BitSet  PutBitSetLE and PutBitSetBE of the same file.
--   Common/BitBuffer common/include/openrs/common/io/bitbuffer.h. A BitBuffer is the buffer below and the
--                    bit position; PutData(num_bits, data) is put_bits, and PutData(data) is put_data.
--                    Slots describes how the client reads bits.
--   Net/Packet       openrs/include/openrs/net/codec/packet.h.
--   Net/Decoder      openrs/{src,include/openrs}/net/codec/decoder/global: the four Decode functions
--                    (decode, grab_decode, login_decode, world_decode) with their tables.
--   Net/Encoder      the same of encoder/global. Net/Encoder/Client is not code of the server: it
--                    describes how the client reads a packet.
--   Net/Session      openrs/{src,include/openrs}/net/session.{cpp,h}: the record Session has the fields
--                    of the class, and a Stage stands for the class of the decoder, the encoder or the
--                    handler. Write gives the bytes that go to the socket.
--   Net/Handler      packethandler.cpp, worldpackethandler.cpp and LoginPacketHandler::Handle, of
--                    openrs/src/net/codec/handler/global, and GrabManager::WriteKeysToBuffer.
--   Net/Grab         grabpackethandler.cpp: the requests, their answers, PackCacheData, and in Net/Grab/Keys
--                    SendUKeys.
--   Net/Login        loginpackethandler.cpp: SendLoginDetails, and HandleLoginWorld, which Block reads as far
--                    as the checks on the encrypted blocks go and Enter from there on; a `return` out of
--                    it is the outcome `fail`. Client and Wire describe what a client writes.
--   Net/Serving      the handlers with the cache, the update keys and the login that they call.
--   Net/Input        Session::Read, which calls the decoder and the handler of the stage in a loop.
--   Game             game/{src,include/openrs/game}: WorldTile (Dynamic has GetDynamicMapRegions), Entity
--                    (with Graphics), World, Skills and Appearance, with the columns of
--                    database/include/openrs/database/columnsets.
--   Game/Player      game/include/openrs/game/player.h: the members of a player. The login has a record of
--                    its own for what it reads and writes of one (Net/Login/Enter).
--   Manager/Config, Manager/Interface, Manager/Appearance, Manager/World
--                    openrs/{src,include/openrs}/manager: the configuration manager (its senders), the
--                    interface manager (Ids has its enumerations, Book which tabs a player gets), the
--                    appearance manager and the world manager. A sender is a call on the session; of the
--                    player it takes what it reads. Of the world manager, Map has the packets with the
--                    map, Start StartPlayer, Moves SendLocalPlayerUpdate and the event of a move, and
--                    Events those of a login and of the screen. In a call that keeps a session or a player
--                    in a table, the entry stands for the object that is shared.
--   Manager/Heard    not code of the server, as Net/Encoder/RoundTrip/Stream: how the client takes the stream
--                    of packets apart, by the lengths that the protocol gives to the types, with the payloads
--                    (Wire) and the two screens (Interfaces/Screens) written out in numbers.
--   Common/Stream    common/include/openrs/common/ifstream.h, over the bytes, the position and the failbit
--                    of a std::ifstream.
--   Cache/Index      cache/{src/index.cpp,include/openrs/cache/index.h}: Index::GetArchiveData. The weak
--                    pointers to the streams are options. Layout and Finds describe what stands in the files.
--   Cache/Manager    Cache::GetStore and GetTypeCount of cache/include/openrs/cache/cache.h, and
--                    CacheManager::GetArchiveData of openrs/src/manager/cache/cachemanager.cpp.
--   Cache/Archive    cache/src/archive.cpp: the constructor of Archive.
--   Tests            runs of the theorems on concrete inputs.
--
-- What is taken as given. The record Server of Net/Handler holds what the handlers call in other
-- parts of the server: the keys of the configuration, CacheManager::GetArchiveData, SendUKeys,
-- HandleLoginWorld and the sinks of the screen event. Net/Serving fills it, from a record Site,
-- with the models of these; ServerKeeps says that they leave the input of the session alone. RSA,
-- XTEA, Whirlpool and Gunzip are parameters (the records Ciphers and Sealing, and an argument of
-- archive), and so are the database, the password hash, the configuration, the random numbers and
-- the sinks of the login event (the record Realm). Net/Serving takes the cache as it was opened.
-- The socket is the list of the bytes that one receive gives, empty where it is closed or fails. A
-- player is a parameter of Game/World, and the floating-point power of Skills::GetSkillLevel a
-- parameter of Game/Skills. Logging has no effect.
--
-- Bounds and fuel. A buffer that exists in memory has less than 2 ^ 64 bytes with some to spare
-- (IsValid); Session::Read is considered for inputs of less than 2 ^ 62 bytes. The loop of Read
-- runs on fuel: as every decoder that succeeds moves forward, one round for each byte is enough,
-- with one for the end of the input and one for a position that the grab decoder has put behind it.
-- PutString(char*) runs on fuel, too, and has no result on any. The loop over the requests of a
-- grab packet is by structure, six bytes a round, and so are the loops over the players and the
-- levels. GetArchiveData runs on fuel: the size of an archive has 24 bits, and every round but the
-- last takes a byte of it or more, so that 2 ^ 24 rounds are enough for any files. Identifiers of
-- archives have 32 bits, of which the upper half is negative, and so do the coordinates of a tile and
-- the rights and the identifier that SendLoginDetails reads. Where the counter of a loop is narrower
-- than the size it is compared with, the model says what becomes of it: PackCacheData fails from 2 ^ 32
-- bytes on, and PutBitSetBE overflows from 2 ^ 31 bits on. PutData(num_bits, data) has the width of the
-- data as an argument, since a shift by that or more is undefined.
--
-- What is not modelled: the reference tables, FileStore (the server has no use for it, and its
-- GetArchiveData is that of Index), the start-up of the cache and of the managers, the files of
-- the configuration, the prayers, the reactor, the database and the event sources, and the system
-- calls and libraries below them. The world manager takes from the JSON library the keys of the map
-- regions, the name of the server and the source URL (fields of WorldManager).
pub mod Base
pub mod Common
pub mod Net
pub mod Game
pub mod Manager
pub mod Cache
pub mod Tests
