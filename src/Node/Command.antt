-- ===== src/Node/Command.antt =====
-- The names of messages that the handler tells apart (bin/cdxd.cpp, CNodeHandler::OnMessage):
-- version, verack, inv, getdata, tx, block, getheaders, headers,
-- ping, pong, getaddr, addr
use cdx.Base.{[], ◌∷◌}
use cdx.Bytes.{Bytes}

abbrev pub version_command : Bytes
version_command = 118 ∷ 101 ∷ 114 ∷ 115 ∷ 105 ∷ 111 ∷ 110 ∷ []

abbrev pub verack_command : Bytes
verack_command = 118 ∷ 101 ∷ 114 ∷ 97 ∷ 99 ∷ 107 ∷ []

abbrev pub inv_command : Bytes
inv_command = 105 ∷ 110 ∷ 118 ∷ []

abbrev pub getdata_command : Bytes
getdata_command = 103 ∷ 101 ∷ 116 ∷ 100 ∷ 97 ∷ 116 ∷ 97 ∷ []

abbrev pub tx_command : Bytes
tx_command = 116 ∷ 120 ∷ []

abbrev pub block_command : Bytes
block_command = 98 ∷ 108 ∷ 111 ∷ 99 ∷ 107 ∷ []

abbrev pub getheaders_command : Bytes
getheaders_command = 103 ∷ 101 ∷ 116 ∷ 104 ∷ 101 ∷ 97 ∷ 100 ∷ 101 ∷ 114 ∷ 115 ∷ []

abbrev pub headers_command : Bytes
headers_command = 104 ∷ 101 ∷ 97 ∷ 100 ∷ 101 ∷ 114 ∷ 115 ∷ []

abbrev pub ping_command : Bytes
ping_command = 112 ∷ 105 ∷ 110 ∷ 103 ∷ []

abbrev pub pong_command : Bytes
pong_command = 112 ∷ 111 ∷ 110 ∷ 103 ∷ []

abbrev pub getaddr_command : Bytes
getaddr_command = 103 ∷ 101 ∷ 116 ∷ 97 ∷ 100 ∷ 100 ∷ 114 ∷ []

abbrev pub addr_command : Bytes
addr_command = 97 ∷ 100 ∷ 100 ∷ 114 ∷ []
